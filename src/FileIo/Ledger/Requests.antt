-- ===== src/FileIo/Ledger/Requests.antt =====
-- host/src/file_io.cpp: the host descriptors under every request.
use kvm_hypervisor.Base.{
  ◌+◌, ◌<◌, ◌≡◌, inl, inr, refl, sym, subst, ap, arith, true, false, not, Option-cases, Bool, ◌==◌,
  if◌then◌else◌, ◌&&◌,
}
use Prim.Native.Nat.{bit_and}
use kvm_hypervisor.Base.Family.{bit}
use kvm_hypervisor.Base.Int.{Int32, ℤ, pos, signed32}
use kvm_hypervisor.Protocol.{file_open_create}
use kvm_hypervisor.FileIo.Host.{
  Name, HostPath, local_directory, Host, Reply-cases, Whence, seek_set, seek_end,
}
use kvm_hypervisor.FileIo.Flags.{to_host_open_flags}
use kvm_hypervisor.FileIo.Names.{read_guest_file_name, get_guest_memory}
use kvm_hypervisor.FileIo.State.{OpenFile, World, FileRequest, find, erase}
use kvm_hypervisor.FileIo.Private.{prepare_file_for_write, with_host, closed, resolve_file}
use kvm_hypervisor.FileIo.Requests.{
  process_file_request, open_file, close_file, read_file, write_file, seek_file, seek_to,
  open_resolved, write_private, add_open_file, create_parent, o_rdonly, load_bytes,
}
use kvm_hypervisor.FileIo.Table.{AllFiles-map, emplace-fresh}
use kvm_hypervisor.FileIo.Valid.{IsValid, IsEntry}
use kvm_hypervisor.FileIo.Ledger.{
  HostAccount, state_of, IsHost, Owes, Owes-opened, Owes-congr, Owes-same, Owes-close,
}
use kvm_hypervisor.FileIo.Ledger.Loops.{uses, uses-erase}
use kvm_hypervisor.FileIo.Ledger.Copies.{IsBalanced, after_reply, prepare_file_for_write-IsBalanced}

module _ (H : Host) (account : H.State → HostAccount) (L : IsHost H account)
    (base : HostAccount) where
  add_open_file-IsBalanced :
      (file : OpenFile) (w : World H)
      → IsValid H w
      → Owes base
          (λ n. bit (file.host_descriptor == n) + uses w.files.open_files n)
          (account w.host)
      → IsBalanced H account L base (add_open_file H file w).0
  unfolding add_open_file
  add_open_file-IsBalanced file w (entries, distinct, low) owed =
      let next = w.files.next_descriptor in
      let fresh = emplace-fresh next file w.files.open_files (
        AllFiles-map (IsEntry w.id w.shared_files next) (λ e f. e < next) (λ e f p. p.1)
          w.files.open_files entries) in
      subst (λ x. Owes base (uses x) (account w.host)) (sym fresh) owed

  open_resolved-IsBalanced :
      (request : FileRequest) (name : Name) (path : HostPath) (shared : Bool) (w : World H)
      → IsValid H w
      → IsBalanced H account L base w
      → IsBalanced H account L base (open_resolved H request name path shared w).0
  unfolding open_resolved
  open_resolved-IsBalanced request name path shared w v b =
      let wanted = not shared && not (bit_and request.flags file_open_create == 0) in
      let flags = if shared then o_rdonly else to_host_open_flags request.flags in
      elim (Reply-cases (create_parent H wanted w)) [
        | inl (s, e) ↦ rw (e, open_resolved) (after_parent wanted w s (ap state_of e) b)
        | inr (s, u, e) ↦
            let b1 = after_parent wanted w s (ap state_of e) b in
            elim (Reply-cases (H.open_file s path flags)) [
              | inl (s1, e1) ↦
                  rw (e, e1, open_resolved)
                    (Owes-same H account L base s s1 (uses w.files.open_files)
                      (L.open_file_failed s s1 path flags e1) b1)
              | inr (s1, fd, e1) ↦
                  rw (e, e1, open_resolved)
                    (add_open_file-IsBalanced _ (with_host H s1 w) v (
                      subst (Owes base (λ n. bit (fd == n) + uses w.files.open_files n))
                        (sym (L.open_file_done s s1 path flags fd e1))
                        (Owes-opened base (account s) (uses w.files.open_files) fd b1)))
            ]
      ]
    where
      after_parent :
          (wanted : Bool) (w : World H) (s : H.State)
          → state_of (create_parent H wanted w) ≡ s
          → IsBalanced H account L base w
          → IsBalanced H account L base (with_host H s w)
      after_parent true w s e b =
          after_reply H account L base (H.create_directories w.host (local_directory w.id)) s w e
            (L.create_directories_lem w.host (local_directory w.id)) b
      after_parent false w s e b = subst (λ x. IsBalanced H account L base (with_host H x w)) e b

  open_file-IsBalanced :
      (request : FileRequest) (w : World H)
      → IsValid H w
      → IsBalanced H account L base w
      → IsBalanced H account L base (open_file H request w).0
  unfolding open_file
  open_file-IsBalanced request w v b =
      elim (Option-cases (read_guest_file_name w.mem w.mem_size request.buffer)) [
        | inl e ↦ ground (arith, b)
        | inr (name, e) ↦
            let (path, shared) = resolve_file H name w in
            ground (arith, b, open_resolved-IsBalanced request name path shared w v b)
      ]

  close_file-IsBalanced :
      (d : Int32) (w : World H)
      → IsBalanced H account L base w
      → IsBalanced H account L base (close_file H d w).0
  unfolding close_file
  close_file-IsBalanced d w b = elim (Option-cases (find d w.files.open_files)) [
    | inl e ↦ ground (arith, b)
    | inr (file, e) ↦
        let rest = uses (erase d w.files.open_files) in
        let owed : Owes base rest (account (closed H (H.close w.host file.host_descriptor))) =
          Owes-close H account L base w.host file.host_descriptor rest (
            Owes-congr base (account w.host) _ _
              (λ n. omega (arith, uses-erase d file w.files.open_files n e)) b) in
        elim (Reply-cases (H.close w.host file.host_descriptor)) [
          | inl (s, e1) ↦
              rw (e, e1, close_file) (subst (λ r. Owes base rest (account (closed H r))) e1 owed)
          | inr (s, u, e1) ↦
              rw (e, e1, close_file) (subst (λ r. Owes base rest (account (closed H r))) e1 owed)
        ]
  ]

  read_file-IsBalanced :
      (request : FileRequest) (w : World H)
      → IsBalanced H account L base w
      → IsBalanced H account L base (read_file H request w).0
  unfolding read_file
  read_file-IsBalanced request w b =
      elim (Option-cases (find request.descriptor w.files.open_files)) [
        | inl e ↦ ground (arith, b)
        | inr (file, e) ↦
            let r = H.read w.host file.host_descriptor request.count in
            let b1 : IsBalanced H account L base (with_host H (state_of r) w) =
              after_reply H account L base r (state_of r) w refl
                (L.read_lem w.host file.host_descriptor request.count) b in
            ground (arith, b, b1)
      ]

  write_private-IsBalanced :
      (request : FileRequest) (w : World H)
      → IsBalanced H account L base w
      → IsBalanced H account L base (write_private H request w).0
  unfolding write_private
  write_private-IsBalanced request w b =
      elim (Option-cases (find request.descriptor w.files.open_files)) [
        | inl e ↦ ground (arith, b)
        | inr (file, e) ↦
            elim (Option-cases (get_guest_memory w.mem_size request.buffer request.count)) [
              | inl e1 ↦ ground (arith, b)
              | inr (at, e1) ↦
                  let bytes = load_bytes w.mem at request.count in
                  let r = H.write w.host file.host_descriptor bytes in
                  let b1 : IsBalanced H account L base (with_host H (state_of r) w) =
                    after_reply H account L base r (state_of r) w refl
                      (L.write_lem w.host file.host_descriptor bytes) b in
                  ground (arith, b, b1)
            ]
      ]

  write_file-IsBalanced :
      (request : FileRequest) (w : World H)
      → IsBalanced H account L base w
      → IsBalanced H account L base (write_file H request w).0
  unfolding write_file
  write_file-IsBalanced request w b =
      elim (Option-cases (find request.descriptor w.files.open_files)) [
        | inl e ↦ ground (arith, b)
        | inr (file, e) ↦
            let w1 = (prepare_file_for_write H file w).0 in
            let b1 = prepare_file_for_write-IsBalanced H account L base file w b in
            ground (arith, b, b1, write_private-IsBalanced request w1 b1)
      ]

  seek_to-IsBalanced :
      (file : OpenFile) (offset : ℤ) (whence : Whence) (w : World H)
      → IsBalanced H account L base w
      → IsBalanced H account L base (seek_to H file offset whence w).0
  unfolding seek_to
  seek_to-IsBalanced file offset whence w b =
      let r = H.lseek w.host file.host_descriptor offset whence in
      let b1 : IsBalanced H account L base (with_host H (state_of r) w) =
        after_reply H account L base r (state_of r) w refl
          (L.lseek_lem w.host file.host_descriptor offset whence) b in
      ground (arith, b, b1)

  seek_file-IsBalanced :
      (request : FileRequest) (w : World H)
      → IsBalanced H account L base w
      → IsBalanced H account L base (seek_file H request w).0
  unfolding seek_file
  seek_file-IsBalanced request w b =
      elim (Option-cases (find request.descriptor w.files.open_files)) [
        | inl e ↦ ground (arith, b)
        | inr (file, e) ↦ ground (
          arith,
          b,
          seek_to-IsBalanced file (signed32 request.offset) seek_set w b,
          seek_to-IsBalanced file (pos 0) seek_end w b,
        )
      ]

  pub process_file_request-IsBalanced :
      (request : FileRequest) (w : World H)
      → IsValid H w
      → IsBalanced H account L base w
      → IsBalanced H account L base (process_file_request H request w).0
  unfolding process_file_request
  process_file_request-IsBalanced request w v b = ground (
    arith,
    b,
    open_file-IsBalanced request w v b,
    close_file-IsBalanced request.descriptor w b,
    read_file-IsBalanced request w b,
    write_file-IsBalanced request w b,
    seek_file-IsBalanced request w b,
  )
