-- ===== src/FileIo/CopyOnWrite.antt =====
-- host/src/file_io.cpp, `prepareFileForWrite` and `writeFile`: a shared file is copied before the
-- first write through any of its descriptors.
use kvm_hypervisor.Base.{
  ℕ, ◌≡◌, ◌≢◌, ◌⊎◌, inl, inr, refl, ◌==◌, ◌∙◌, ◌%◌, ◌^◌, sym, subst, ap, arith, some, true, false,
  Bool-cases, List, [],
}
use kvm_hypervisor.Base.Int.{Int32, minus_one}
use kvm_hypervisor.FileIo.Host.{
  Name, HostPath, local_file, local_directory, Host, done, Reply-cases,
}
use kvm_hypervisor.FileIo.State.{OpenFile, FileRequest, World, find}
use kvm_hypervisor.FileIo.Table.{IsDistinct, same_name_refl}
use kvm_hypervisor.FileIo.Private.{
  ReopenedFile, reopen_loop, switch_loop, reopen_shared_files, copy_for_write,
  prepare_file_for_write, with_host,
}
use kvm_hypervisor.FileIo.Taken.{
  IsReopenedAt, reopen_loop-HasKey, reopen_loop-IsReopenedAt, switch_loop-IsTaken, IsTaken,
}
use kvm_hypervisor.FileIo.Requests.{write_file, write_private, load_bytes}
use kvm_hypervisor.Base.Memory.{Memory}
use kvm_hypervisor.FileIo.Names.{get_guest_memory}

module _ (H : Host) where
  -- The table that `reopenSharedFiles` leaves where its first loop ends well.
  abbrev pub IsReopened : Name → HostPath → World H → World H → Type 0
  IsReopened name path w w' =
      (s : H.State) × (s1 : H.State) × (r : List ReopenedFile) × (reopen_loop H name path
          w.files.open_files [] s
        ≡ done s1 r)
      × (w'.files ≡ record w.files { open_files = (switch_loop H path r s1 w.files.open_files).1 })

  abbrev pub IsSame : World H → World H → Type 0
  IsSame w w' =
      (w'.id ≡ w.id)
      × (w'.shared_files ≡ w.shared_files)
      × (w'.mem ≡ w.mem)
      × (w'.mem_size ≡ w.mem_size)

  reopen_shared_files-cases :
      (name : Name) (path : HostPath) (w : World H)
      → IsSame w (reopen_shared_files H name path w).0
        × ((((reopen_shared_files H name path w).1 ≡ false)
              × ((reopen_shared_files H name path w).0.files ≡ w.files))
            ⊎ IsReopened name path w (reopen_shared_files H name path w).0)
  unfolding reopen_shared_files
  reopen_shared_files-cases name path w =
      elim (Reply-cases (reopen_loop H name path w.files.open_files [] w.host)) [
        | inl (s, e) ↦ (ground arith, inl (ground arith))
        | inr (s1, r, e) ↦ (ground arith, inr (w.host, s1, r, e, ground arith))
      ]

  -- The host made the copy.
  abbrev pub IsCopied : HostPath → HostPath → Type 0
  IsCopied source path = (s : H.State) × (s' : H.State) × (H.copy_file s source path ≡ done s' tt)

  -- Making a file private leaves the table as it was, and then it fails, or with every entry of the
  -- file turned over to the copy that the host made.
  pub copy_for_write-cases :
      (name : Name) (source : HostPath) (w : World H)
      → IsSame w (copy_for_write H name source w).0
        × ((((copy_for_write H name source w).1 ≡ false)
              × ((copy_for_write H name source w).0.files ≡ w.files))
            ⊎ (IsCopied source (local_file w.id name)
                × IsReopened name (local_file w.id name) w (copy_for_write H name source w).0))
  unfolding copy_for_write
  copy_for_write-cases name source w =
      elim (Reply-cases (H.create_directories w.host (local_directory w.id))) [
        | inl (s, e) ↦ (ground arith, inl (ground arith))
        | inr (s, u, e) ↦ elim (Reply-cases (H.copy_file s source (local_file w.id name))) [
          | inl (s1, e1) ↦ (ground arith, inl (ground arith))
          | inr (s1, u1, e1) ↦ elim (Reply-cases (H.add_owner_write s1 (local_file w.id name))) [
            | inl (s2, e2) ↦ (ground arith, inl (ground arith))
            | inr (s2, u2, e2) ↦
                let (same, table) =
                  reopen_shared_files-cases name (local_file w.id name) (with_host H s2 w) in
                (
                  ground (arith, same),
                  elim table [
                    | inl kept ↦ inl (ground (arith, kept))
                    | inr (s3, s4, r, looped, turned) ↦
                        inr ((s, s1, e1), (s3, s4, r, looped, ground (arith, turned)))
                  ],
                )
          ]
        ]
      ]

  -- Where it succeeds, the entry of every descriptor of the file stays open with its name and flags,
  -- is no longer shared, and has the path of the VM's own copy, on which its host descriptor was opened.
  pub prepare_file_for_write-IsTaken :
      (w : World H) (d : Int32) (file : OpenFile)
      → IsDistinct w.files.open_files
      → find d w.files.open_files ≡ some file
      → file.shared ≡ true
      → (prepare_file_for_write H file w).1 ≡ true
      → (f' : OpenFile) × (find d (prepare_file_for_write H file w).0.files.open_files ≡ some f')
        × IsTaken H
            (local_file w.id file.name)
            (IsReopenedAt H (local_file w.id file.name) file)
            file
            f'
        × IsCopied file.host_path (local_file w.id file.name)
  unfolding prepare_file_for_write
  prepare_file_for_write-IsTaken w d file apart found shared h =
      let (same, table) = copy_for_write-cases file.name file.host_path w in
      let made : prepare_file_for_write H file w ≡ copy_for_write H file.name file.host_path w =
        ground arith in
      elim table [
        | inl (refused, kept) ↦ absurd (ground arith)
        | inr (copied, (s, s1, r, looped, turned)) ↦
            let (f', found', taken) =
              switch_loop-IsTaken H (local_file w.id file.name)
                (IsReopenedAt H (local_file w.id file.name) file) d file file r s1
                w.files.open_files found refl refl
                (reopen_loop-HasKey H file.name (local_file w.id file.name) d file
                  w.files.open_files [] r s s1 found shared (same_name_refl file.name) looped)
                (reopen_loop-IsReopenedAt H file.name (local_file w.id file.name) d file
                  w.files.open_files r s s1 apart found looped) in
            (
              f',
              ap (λ x. find d x.0.files.open_files) made
                  ∙ ap (λ x. find d x.open_files) turned
                  ∙ found',
              taken,
              copied,
            )
      ]

  prepare_file_for_write-IsSame :
      (w : World H) (file : OpenFile) → IsSame w (prepare_file_for_write H file w).0
  unfolding prepare_file_for_write
  prepare_file_for_write-IsSame w file =
      let (same, table) = copy_for_write-cases file.name file.host_path w in ground (arith, same)

  -- The host wrote the bytes of the request's buffer through an entry, with its answer as the result.
  abbrev pub IsWritten : FileRequest → Memory → OpenFile → World H × Int32 → Type 0
  IsWritten request mem file result =
      (s : H.State) × (n : ℕ) × (H.write s file.host_descriptor
          (load_bytes mem request.buffer request.count)
        ≡ done result.0.host n)
      × (result.1 ≡ n % 2 ^ 32)

  write_private-cases :
      (request : FileRequest) (w : World H) (f : OpenFile)
      → find request.descriptor w.files.open_files ≡ some f
      → (write_private H request w).1 ≢ minus_one
      → ((write_private H request w).0.files ≡ w.files)
        × ((request.count ≡ 0) ⊎ IsWritten request w.mem f (write_private H request w))
  unfolding write_private get_guest_memory
  write_private-cases request w f found good =
      elim (Reply-cases
        (H.write w.host f.host_descriptor (load_bytes w.mem request.buffer request.count))) [
          | inl (s, e) ↦ (ground arith, inl (ground arith))
          | inr (s, n, e) ↦ elim (Bool-cases (request.count == 0)) [
            | inl z ↦ (ground arith, inl (ground arith))
            | inr z ↦ (ground arith, inr (w.host, n, ground arith, ground arith))
          ]
        ]

  -- The file through which a write goes: the entry's own where it was not shared. Where it was, the
  -- host descriptor was opened on the VM's own file of that name, with the flags and at the offset of
  -- the entry, and the host had copied the shared file there.
  abbrev pub IsOwn : World H → OpenFile → OpenFile → Type 0
  IsOwn w file f' =
      (f'.shared ≡ false)
      × (f'.name ≡ file.name)
      × (f'.flags ≡ file.flags)
      × (((file.shared ≡ false) × (f' ≡ file))
          ⊎ ((file.shared ≡ true)
              × (f'.host_path ≡ local_file w.id file.name)
              × IsCopied file.host_path (local_file w.id file.name)
              × IsReopenedAt H (local_file w.id file.name) file f'.host_descriptor))

  prepare_file_for_write-IsOwn :
      (w : World H) (d : Int32) (file : OpenFile)
      → IsDistinct w.files.open_files
      → find d w.files.open_files ≡ some file
      → (prepare_file_for_write H file w).1 ≡ true
      → (f' : OpenFile) × (find d (prepare_file_for_write H file w).0.files.open_files ≡ some f')
        × IsOwn w file f'
  unfolding prepare_file_for_write
  prepare_file_for_write-IsOwn w d file apart found h = elim (Bool-cases file.shared) [
    | inl shared ↦
        let (f', found', (private, path, name, flags, reopened), copied) =
          prepare_file_for_write-IsTaken w d file apart found shared h in
        (f', found', (private, name, flags, inr (shared, path, copied, reopened)))
    | inr own ↦ (file, ground arith, (own, refl, refl, inl (own, refl)))
  ]

  write_file-write_private :
      (request : FileRequest) (w : World H) (file : OpenFile)
      → find request.descriptor w.files.open_files ≡ some file
      → (write_file H request w).1 ≢ minus_one
      → ((prepare_file_for_write H file w).1 ≡ true)
        × (write_file H request w ≡ write_private H request (prepare_file_for_write H file w).0)
  unfolding write_file
  write_file-write_private request w file found good = (ground arith, ground arith)

  -- In a table with distinct descriptors, a write that gives a result other than -1 leaves its
  -- descriptor open with the same name and flags on a file that is not shared: the same host
  -- descriptor where the file was not shared; and where it was, one that the host opened on the VM's
  -- own file of that name, a copy of the shared file, and moved to the offset at which the old one
  -- stood. Unless the count is 0, the host wrote the bytes of the buffer through that host
  -- descriptor, and the result is the number that it gave.
  pub write_file-IsOwn :
      (request : FileRequest) (w : World H) (file : OpenFile)
      → IsDistinct w.files.open_files
      → find request.descriptor w.files.open_files ≡ some file
      → (write_file H request w).1 ≢ minus_one
      → (f' : OpenFile) × (find request.descriptor (write_file H request w).0.files.open_files
          ≡ some f')
        × IsOwn w file f'
        × ((request.count ≡ 0) ⊎ IsWritten request w.mem f' (write_file H request w))
  write_file-IsOwn request w file apart found good =
      let (prepared, e) = write_file-write_private request w file found good in
      let w1 = (prepare_file_for_write H file w).0 in
      let (f', found', own) =
        prepare_file_for_write-IsOwn w request.descriptor file apart found prepared in
      let (kept, written) =
        write_private-cases request w1 f' found' (λ q. good (ap (λ x. x.1) e ∙ q)) in
      let (id, shared, mem, size) = prepare_file_for_write-IsSame w file in
      (
        f',
        ap (λ x. find request.descriptor x.0.files.open_files) e
            ∙ ap (λ x. find request.descriptor x.open_files) kept
            ∙ found',
        own,
        subst (λ x. (request.count ≡ 0) ⊎ IsWritten request w.mem f' x) (sym e)
            (subst (λ m. (request.count ≡ 0) ⊎ IsWritten request m f' (write_private H request w1))
              mem written),
      )
