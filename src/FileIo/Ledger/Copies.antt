-- ===== src/FileIo/Ledger/Copies.antt =====
-- host/src/file_io.cpp: the host descriptors under `prepareFileForWrite`.
use kvm_hypervisor.Base.{◌≡◌, inl, inr, subst, ap, arith, some, Bool-cases, [], ◌∷◌, ◌==◌}
use kvm_hypervisor.FileIo.Host.{
  Name, HostPath, local_file, local_directory, Host, Reply, Reply-cases,
}
use kvm_hypervisor.FileIo.State.{OpenFile, OpenFiles, World, find}
use kvm_hypervisor.FileIo.Private.{
  reopen_loop, reopen_shared_files, copy_for_write, prepare_file_for_write, with_host,
}
use kvm_hypervisor.FileIo.Reopened.{reopen_loop-AllKeys}
use kvm_hypervisor.FileIo.Table.{AllFiles, AllFiles-map}
use kvm_hypervisor.FileIo.Ledger.{
  HostAccount, state_of, IsHost, Owes, Owes-congr, Owes-same, Owes-reply,
}
use kvm_hypervisor.FileIo.Ledger.Loops.{uses, LoopOwes, reopen_loop-Owes, switch_loop-Owes}

-- Every entry of a table is open in it.
AllFiles-IsOpen :
    (files : OpenFiles) → AllFiles (λ d f. (g : OpenFile) × (find d files ≡ some g)) files
unfolding find
AllFiles-IsOpen [] = tt
AllFiles-IsOpen ((e, k) ∷ files) = (
  (k, ground arith),
  AllFiles-map (λ d f. (g : OpenFile) × (find d files ≡ some g))
      (λ d f. (g : OpenFile) × (find d ((e, k) ∷ files) ≡ some g))
      (λ d f (g, h). elim (Bool-cases (e == d)) [
        | inl here ↦ (k, ground arith)
        | inr there ↦ (g, ground arith)
      ])
      files (AllFiles-IsOpen files),
)

module _ (H : Host) (account : H.State → HostAccount) (L : IsHost H account)
    (base : HostAccount) where
  -- The process holds what it held at first and one descriptor for each entry of the table.
  abbrev pub IsBalanced : World H → Type 0
  IsBalanced w = Owes base (uses w.files.open_files) (account w.host)

  -- A call that opens and closes nothing.
  pub after_reply :
      {A : Type 0}
      → (r : Reply H.State A) (s : H.State) (w : World H) → state_of r ≡ s
      → account (state_of r) ≡ account w.host
      → IsBalanced w
      → IsBalanced (with_host H s w)
  after_reply r s w e kept b =
      Owes-reply H account L base r w.host s (uses w.files.open_files) e kept b

  reopen_shared_files-IsBalanced :
      (name : Name) (path : HostPath) (w : World H)
      → IsBalanced w
      → IsBalanced (reopen_shared_files H name path w).0
  unfolding reopen_shared_files
  reopen_shared_files-IsBalanced name path w b =
      let files = w.files.open_files in
      let owed =
        reopen_loop-Owes H account L base name path files [] w.host (uses files)
          (Owes-congr base (account w.host) _ _ (λ n. omega arith) b) in
      elim (Reply-cases (reopen_loop H name path files [] w.host)) [
        | inl (s, e) ↦
            rw (e, reopen_shared_files) (subst (LoopOwes H account L base (uses files)) e owed)
        | inr (s, r, e) ↦
            let known =
              reopen_loop-AllKeys H name path (λ d. (g : OpenFile) × (find d files ≡ some g)) files
                r w.host s
                (AllFiles-map (λ d f. (g : OpenFile) × (find d files ≡ some g))
                  (λ d f. f.name ≡ name → (g : OpenFile) × (find d files ≡ some g)) (λ d f k n. k)
                  files (AllFiles-IsOpen files))
                e in
            rw (e, reopen_shared_files)
              (switch_loop-Owes H account L base path r s files known
                (subst (LoopOwes H account L base (uses files)) e owed))
      ]

  without_copy-IsBalanced :
      (path : HostPath) (w : World H)
      → IsBalanced w
      → IsBalanced (with_host H (H.remove w.host path) w)
  without_copy-IsBalanced path w b =
      Owes-same H account L base w.host _ (uses w.files.open_files) (L.remove_lem w.host path) b

  copy_for_write-IsBalanced :
      (name : Name) (source : HostPath) (w : World H)
      → IsBalanced w
      → IsBalanced (copy_for_write H name source w).0
  unfolding copy_for_write
  copy_for_write-IsBalanced name source w b =
      let path = local_file w.id name in
      let made = H.create_directories w.host (local_directory w.id) in
      elim (Reply-cases made) [
        | inl (s, e) ↦
            rw (e, copy_for_write)
              (after_reply made s w (ap state_of e)
                (L.create_directories_lem w.host (local_directory w.id)) b)
        | inr (s, u, e) ↦
            let b1 =
              after_reply made s w (ap state_of e)
                (L.create_directories_lem w.host (local_directory w.id)) b in
            let copied = H.copy_file s source path in
            elim (Reply-cases copied) [
              | inl (s1, e1) ↦
                  rw (e, e1, copy_for_write)
                    (without_copy-IsBalanced path (with_host H s1 w) (
                      after_reply copied s1 (with_host H s w) (ap state_of e1)
                        (L.copy_file_lem s source path) b1))
              | inr (s1, u1, e1) ↦
                  let b2 =
                    after_reply copied s1 (with_host H s w) (ap state_of e1)
                      (L.copy_file_lem s source path) b1 in
                  let changed = H.add_owner_write s1 path in
                  elim (Reply-cases changed) [
                    | inl (s2, e2) ↦
                        rw (e, e1, e2, copy_for_write)
                          (without_copy-IsBalanced path (with_host H s2 w) (
                            after_reply changed s2 (with_host H s1 w) (ap state_of e2)
                              (L.add_owner_write_lem s1 path) b2))
                    | inr (s2, u2, e2) ↦
                        let b3 =
                          after_reply changed s2 (with_host H s1 w) (ap state_of e2)
                            (L.add_owner_write_lem s1 path) b2 in
                        let w1 = with_host H s2 w in
                        let b4 = reopen_shared_files-IsBalanced name path w1 b3 in
                        elim (Bool-cases (reopen_shared_files H name path w1).1) [
                          | inl taken ↦ rw (e, e1, e2, taken, copy_for_write) b4
                          | inr refused ↦
                              rw (e, e1, e2, refused, copy_for_write)
                                (without_copy-IsBalanced path (reopen_shared_files H name path w1).0
                                  b4)
                        ]
                  ]
            ]
      ]

  pub prepare_file_for_write-IsBalanced :
      (file : OpenFile) (w : World H)
      → IsBalanced w
      → IsBalanced (prepare_file_for_write H file w).0
  unfolding prepare_file_for_write
  prepare_file_for_write-IsBalanced file w b =
      ground (arith, b, copy_for_write-IsBalanced file.name file.host_path w b)
