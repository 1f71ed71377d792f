-- ===== src/FileIo/Preserved.antt =====
-- host/src/file_io.cpp: the table of open files under every request.
use Prim.Native.Nat.{◌^◌, ◌%◌, bit_and}
use kvm_hypervisor.Base.{
  ℕ, ◌+◌, ◌-◌, ◌<◌, ◌≡◌, ◌≢◌, ◌⊎◌, inl, inr, sym, subst, arith, Option-cases, Bool, true, not, ◌&&◌,
  ◌==◌, Bool-cases, if◌then◌else◌,
}
use kvm_hypervisor.Base.Int.{Int32}
use kvm_hypervisor.Protocol.{file_open_create}
use kvm_hypervisor.FileIo.Host.{Name, HostPath, Host, Reply-cases}
use kvm_hypervisor.FileIo.Names.{
  is_valid_guest_file_name, read_guest_file_name, read_guest_file_name_iff,
}
use kvm_hypervisor.FileIo.Flags.{are_valid_open_flags, to_host_open_flags}
use kvm_hypervisor.FileIo.State.{OpenFile, FileRequest, World, find, erase}
use kvm_hypervisor.FileIo.Table.{
  AllFiles, AllFiles-map, AllFiles-erase, IsDistinct, IsDistinct-erase, emplace-fresh,
}
use kvm_hypervisor.FileIo.Private.{resolve_file, prepare_file_for_write, with_host}
use kvm_hypervisor.FileIo.Valid.{
  IsReachable, IsEntry, IsValid, HasTable, HasTable-IsValid, prepare_file_for_write-IsValid,
}
use kvm_hypervisor.FileIo.Requests.{
  process_file_request, open_file, close_file, read_file, write_file, seek_file, open_resolved,
  write_private, add_open_file, create_parent, o_rdonly,
}

module _ (H : Host) where
  add_open_file-IsValid :
      (file : OpenFile) (w : World H)
      → w.files.next_descriptor < 2 ^ 31 - 1
      → IsReachable w.id w.shared_files file
      → IsValid H w
      → IsValid H (add_open_file H file w).0
  unfolding add_open_file
  add_open_file-IsValid file w small reach (entries, distinct, low) =
      let next = w.files.next_descriptor in
      let files = w.files.open_files in
      let P = IsEntry w.id w.shared_files in
      let fresh =
        emplace-fresh next file files
          (AllFiles-map (P next) (λ e f. e < next) (λ e f p. p.1) files entries) in
      (
        subst (AllFiles (P ((next + 1) % 2 ^ 32))) (sym fresh) (
          (low, omega arith, reach),
          AllFiles-map (P next) (P ((next + 1) % 2 ^ 32))
              (λ e f (above, below, rest). (above, omega arith, rest)) files entries,
        ),
        subst IsDistinct (sym fresh) (
          AllFiles-map (P next) (λ e f. e ≢ next) (λ e f p same. omega (arith, p.1, same)) files
              entries,
          distinct,
        ),
        omega arith,
      )

  close_file-HasTable :
      (d : Int32) (w : World H)
      → HasTable H w w.files (close_file H d w).0
        ⊎ HasTable H w
            (record w.files { open_files = erase d w.files.open_files })
            (close_file H d w).0
  unfolding close_file
  close_file-HasTable d w = elim (Option-cases (find d w.files.open_files)) [
    | inl e ↦ inl (ground arith)
    | inr (file, e) ↦ inr (ground arith)
  ]

  close_file-IsValid : (d : Int32) (w : World H) → IsValid H w → IsValid H (close_file H d w).0
  close_file-IsValid d w v = elim (close_file-HasTable d w) [
    | inl same ↦ HasTable-IsValid H w (close_file H d w).0 w.files same v
    | inr erased ↦ HasTable-IsValid H w (close_file H d w).0 _ erased (
      AllFiles-erase (IsEntry w.id w.shared_files w.files.next_descriptor) d w.files.open_files v.0,
      IsDistinct-erase d w.files.open_files v.1,
      v.2,
    )
  ]

  read_file-HasTable :
      (request : FileRequest) (w : World H) → HasTable H w w.files (read_file H request w).0
  unfolding read_file
  read_file-HasTable request w = ground arith

  seek_file-HasTable :
      (request : FileRequest) (w : World H) → HasTable H w w.files (seek_file H request w).0
  unfolding seek_file
  seek_file-HasTable request w = ground arith

  write_private-HasTable :
      (request : FileRequest) (w : World H) → HasTable H w w.files (write_private H request w).0
  unfolding write_private
  write_private-HasTable request w = ground arith

  write_file-IsValid :
      (request : FileRequest) (w : World H) → IsValid H w → IsValid H (write_file H request w).0
  unfolding write_file
  write_file-IsValid request w v =
      elim (Option-cases (find request.descriptor w.files.open_files)) [
        | inl e ↦ HasTable-IsValid H w (write_file H request w).0 w.files (ground arith) v
        | inr (file, e) ↦
            let w1 = (prepare_file_for_write H file w).0 in
            let v1 = prepare_file_for_write-IsValid H file w v in
            ground (
              arith,
              v,
              v1,
              HasTable-IsValid H w1 (write_private H request w1).0 w1.files
                  (write_private-HasTable request w1) v1,
            )
      ]

  -- A resolved path is one that the VM may reach.
  resolve_file-IsReachable :
      (name : Name) (flags : Int32) (w : World H) (fd : ℕ)
      → is_valid_guest_file_name name ≡ true
      → are_valid_open_flags flags ≡ true
      → IsReachable w.id w.shared_files (record {
        host_descriptor = fd;
        flags = flags;
        name = name;
        host_path = (resolve_file H name w).0;
        shared = (resolve_file H name w).1;
      })
  unfolding resolve_file
  resolve_file-IsReachable name flags w fd valid good = (valid, good, ground arith)

  abbrev opened : FileRequest → Name → HostPath → Bool → ℕ → OpenFile
  opened request name path shared fd = record {
    host_descriptor = fd;
    flags = request.flags;
    name = name;
    host_path = path;
    shared = shared;
  }

  open_resolved-IsValid :
      (request : FileRequest) (name : Name) (path : HostPath) (shared : Bool) (w : World H)
      → w.files.next_descriptor < 2 ^ 31 - 1
      → ((fd : ℕ) → IsReachable w.id w.shared_files (opened request name path shared fd))
      → IsValid H w
      → IsValid H (open_resolved H request name path shared w).0
  unfolding open_resolved
  open_resolved-IsValid request name path shared w small reach v =
      elim (Reply-cases
        (create_parent H (not shared && not (bit_and request.flags file_open_create == 0)) w)) [
          | inl (s, e) ↦
              HasTable-IsValid H w (open_resolved H request name path shared w).0 w.files
                (ground arith) v
          | inr (s, u, e) ↦
              elim (Reply-cases (
                H.open_file s path
                  (if shared then o_rdonly else to_host_open_flags request.flags))) [
                    | inl (s1, e1) ↦
                        HasTable-IsValid H w (open_resolved H request name path shared w).0 w.files
                          (ground arith) v
                    | inr (s1, fd, e1) ↦
                        let added =
                          add_open_file H (opened request name path shared fd) (with_host H s1 w) in
                        let e2 : open_resolved H request name path shared w ≡ added =
                          ground arith in
                        subst (λ (x : World H × Int32). IsValid H x.0) (sym e2)
                          (add_open_file-IsValid (opened request name path shared fd)
                            (with_host H s1 w) small (reach fd) v)
                  ]
        ]

  open_file-IsValid :
      (request : FileRequest) (w : World H)
      → w.files.next_descriptor < 2 ^ 31 - 1
      → IsValid H w
      → IsValid H (open_file H request w).0
  unfolding open_file
  open_file-IsValid request w small v = elim (Bool-cases (are_valid_open_flags request.flags)) [
    | inr bad ↦ HasTable-IsValid H w (open_file H request w).0 w.files (ground arith) v
    | inl good ↦ elim (Option-cases (read_guest_file_name w.mem w.mem_size request.buffer)) [
      | inl e ↦ HasTable-IsValid H w (open_file H request w).0 w.files (ground arith) v
      | inr (name, e) ↦
          let (valid, stands, short, inside) =
            (read_guest_file_name_iff w.mem w.mem_size request.buffer name).0 e in
          let (path, shared) = resolve_file H name w in
          let e1 : open_file H request w ≡ open_resolved H request name path shared w =
            ground arith in
          subst (λ (x : World H × Int32). IsValid H x.0) (sym e1)
            (open_resolved-IsValid request name path shared w small
              (λ fd. resolve_file-IsReachable name request.flags w fd valid good) v)
    ]
  ]

  -- While the descriptor counter is below the greatest `int`, every request keeps the table of open
  -- files well formed: descriptors are distinct and lie from 3 up to the next one, and every file is the
  -- VM's own file of a valid name, or the shared file of that name, open with valid flags.
  pub process_file_request-IsValid :
      (request : FileRequest) (w : World H)
      → w.files.next_descriptor < 2 ^ 31 - 1
      → IsValid H w
      → IsValid H (process_file_request H request w).0
  unfolding process_file_request
  process_file_request-IsValid request w small v =
      let read =
        HasTable-IsValid H w (read_file H request w).0 w.files (read_file-HasTable request w) v in
      let sought =
        HasTable-IsValid H w (seek_file H request w).0 w.files (seek_file-HasTable request w) v in
      ground (
        arith,
        v,
        read,
        sought,
        open_file-IsValid request w small v,
        close_file-IsValid request.descriptor w v,
        write_file-IsValid request w v,
      )
