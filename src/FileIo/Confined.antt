-- ===== src/FileIo/Confined.antt =====
-- host/src/file_io.cpp: which bytes of guest memory a request can change.
use kvm_hypervisor.Base.{ℕ, ◌+◌, ◌≤◌, ◌<◌, ◌≡◌, ◌≢◌, Option-cases, ap, inl, inr, arith}
use kvm_hypervisor.Base.Memory.{store_bytes-elsewhere}
use kvm_hypervisor.Base.Int.{Int32}
use kvm_hypervisor.Protocol.{file_operation_read}
use kvm_hypervisor.FileIo.Host.{Name, HostPath, Host, IsPosix, Reply-cases}
use kvm_hypervisor.FileIo.State.{OpenFile, FileRequest, World, find}
use kvm_hypervisor.FileIo.Names.{get_guest_memory}
use kvm_hypervisor.FileIo.Private.{prepare_file_for_write, copy_for_write}
use kvm_hypervisor.FileIo.Requests.{
  process_file_request, open_file, close_file, read_file, write_file, seek_file, write_private,
}

module _ (H : Host) where
  pub copy_for_write-mem :
      (name : Name) (source : HostPath) (w : World H)
      → (copy_for_write H name source w).0.mem ≡ w.mem
  unfolding copy_for_write
  copy_for_write-mem name source w = ground arith

  pub prepare_file_for_write-mem :
      (file : OpenFile) (w : World H) → (prepare_file_for_write H file w).0.mem ≡ w.mem
  unfolding prepare_file_for_write
  prepare_file_for_write-mem file w = ground (arith, copy_for_write-mem file.name file.host_path w)

  pub open_file-mem : (request : FileRequest) (w : World H) → (open_file H request w).0.mem ≡ w.mem
  unfolding open_file
  open_file-mem request w = ground arith

  pub close_file-mem : (d : Int32) (w : World H) → (close_file H d w).0.mem ≡ w.mem
  unfolding close_file
  close_file-mem d w = ground arith

  pub write_private-mem :
      (request : FileRequest) (w : World H) → (write_private H request w).0.mem ≡ w.mem
  unfolding write_private
  write_private-mem request w = ground arith

  pub write_file-mem :
      (request : FileRequest) (w : World H) → (write_file H request w).0.mem ≡ w.mem
  unfolding write_file
  write_file-mem request w = elim (Option-cases (find request.descriptor w.files.open_files)) [
    | inl none_open ↦ ground arith
    | inr (file, is_open) ↦ ground (
      arith,
      prepare_file_for_write-mem file w,
      write_private-mem request (prepare_file_for_write H file w).0,
    )
  ]

  pub seek_file-mem : (request : FileRequest) (w : World H) → (seek_file H request w).0.mem ≡ w.mem
  unfolding seek_file
  seek_file-mem request w = ground arith

  read_file-mem :
      IsPosix H
      → (request : FileRequest) (w : World H) (a : ℕ) → (read_file H request w).0.mem a ≢ w.mem a
      → (request.buffer ≤ a) × (a < request.buffer + request.count) × (a < w.mem_size)
  unfolding read_file get_guest_memory
  read_file-mem posix request w a h =
      elim (Option-cases (find request.descriptor w.files.open_files)) [
        | inl none_open ↦ ground arith
        | inr (file, is_open) ↦
            elim (Reply-cases (H.read w.host file.host_descriptor request.count)) [
              | inl (s, e) ↦ ground arith
              | inr (s, bytes, e) ↦ ground (
                arith,
                posix.read_short w.host s file.host_descriptor request.count bytes e,
                store_bytes-elsewhere w.mem request.buffer bytes a,
              )
            ]
      ]

  -- A request changes no byte of guest memory but those of a read's buffer, all of them inside guest
  -- memory, when the host's `read` gives no more bytes than it was asked for.
  pub process_file_request-IsConfined :
      IsPosix H
      → (request : FileRequest) (w : World H) (a : ℕ)
      → (process_file_request H request w).0.mem a ≢ w.mem a
      → (request.operation ≡ file_operation_read)
        × (request.buffer ≤ a)
        × (a < request.buffer + request.count)
        × (a < w.mem_size)
  unfolding process_file_request
  process_file_request-IsConfined posix request w a h = ground (
    arith,
    ap (λ mem. mem a) (open_file-mem request w),
    ap (λ mem. mem a) (close_file-mem request.descriptor w),
    read_file-mem posix request w a,
    ap (λ mem. mem a) (write_file-mem request w),
    ap (λ mem. mem a) (seek_file-mem request w),
  )
