-- ===== src/FileIo/Requests.antt =====
-- host/src/file_io.cpp, `openFile` to `processFileRequest`: the requests, each with the world it
-- leaves and its result. The result -1 is every error.
use Prim.Native.Nat.{bit_and}
use kvm_hypervisor.Base.{
  ℕ, zero, suc, ◌+◌, ◌-◌, ◌%◌, ◌^◌, Bool, false, not, ◌&&◌, ◌||◌, none, some, List, [], ◌∷◌, ltb,
  ◌==◌, if◌then◌else◌, length,
}
use kvm_hypervisor.Base.Int.{Int32, minus_one, is_negative, signed32, ℤ, pos}
use kvm_hypervisor.Base.Memory.{Memory, store_bytes}
use kvm_hypervisor.Protocol.{
  file_open_create, file_operation_open, file_operation_close, file_operation_read,
  file_operation_write, file_operation_lseek, file_seek_set, file_seek_end,
}
use kvm_hypervisor.FileIo.Host.{
  Name, HostPath, HostFlags, local_directory, Host, Reply, failed, done, rdonly, Whence, seek_set,
  seek_end,
}
use kvm_hypervisor.FileIo.Names.{get_guest_memory, read_guest_file_name}
use kvm_hypervisor.FileIo.Flags.{
  has_read_access, has_write_access, are_valid_open_flags, to_host_open_flags,
}
use kvm_hypervisor.FileIo.State.{FileRequest, OpenFile, OpenFiles, World, find, emplace, erase}
use kvm_hypervisor.FileIo.Private.{resolve_file, prepare_file_for_write, with_host}

-- The bytes that `write` takes from an address.
unfoldable pub load_bytes : Memory → ℕ → ℕ → List ℕ
load_bytes mem p zero = []
load_bytes mem p (suc n) = mem p ∷ load_bytes mem (p + 1) n

abbrev pub o_rdonly : HostFlags
o_rdonly = record { access = rdonly; creat = false }

module _ (H : Host) where
  abbrev pub with_files : OpenFiles → World H → World H
  with_files files w = record w { files = record w.files { open_files = files } }

  abbrev pub create_parent : Bool → World H → Reply H.State Unit
  create_parent wanted w =
      if wanted then H.create_directories w.host (local_directory w.id) else done w.host tt

  -- The new entry under the next descriptor. The counter of type `int` is not tested for overflow.
  unfoldable pub add_open_file : OpenFile → World H → World H × Int32
  unfolding emplace
  add_open_file file w =
      let descriptor = w.files.next_descriptor in
      (
        record w {
          files = record w.files {
            next_descriptor = (descriptor + 1) % 2 ^ 32;
            open_files = emplace descriptor file w.files.open_files;
          };
        },
        descriptor,
      )

  -- `openFile` once the name is resolved.
  unfoldable pub open_resolved : FileRequest → Name → HostPath → Bool → World H → World H × Int32
  unfolding add_open_file
  open_resolved request name path shared w =
      elim (create_parent (not shared && not (bit_and request.flags file_open_create == 0)) w) [
        | failed s ↦ (with_host H s w, minus_one)
        | done s u ↦
            elim (H.open_file s path
              (if shared then o_rdonly else to_host_open_flags request.flags)) [
                | failed s1 ↦ (with_host H s1 w, minus_one)
                | done s1 fd ↦
                    add_open_file
                      (record {
                        host_descriptor = fd;
                        flags = request.flags;
                        name = name;
                        host_path = path;
                        shared = shared;
                      })
                      (with_host H s1 w)
              ]
      ]

  unfoldable pub open_file : FileRequest → World H → World H × Int32
  unfolding open_resolved
  open_file request w =
      if not (are_valid_open_flags request.flags)
      then (w, minus_one)
      else elim (read_guest_file_name w.mem w.mem_size request.buffer) [
        | none ↦ (w, minus_one)
        | some name ↦
            let (path, shared) = resolve_file H name w in open_resolved request name path shared w
      ]

  unfoldable pub close_file : Int32 → World H → World H × Int32
  unfolding erase
  close_file descriptor w = elim (find descriptor w.files.open_files) [
    | none ↦ (w, minus_one)
    | some file ↦
        let w1 = with_files (erase descriptor w.files.open_files) w in
        elim (H.close w.host file.host_descriptor) [
          | failed s ↦ (with_host H s w1, minus_one)
          | done s u ↦ (with_host H s w1, 0)
        ]
  ]

  unfoldable pub read_file : FileRequest → World H → World H × Int32
  read_file request w = elim (find request.descriptor w.files.open_files) [
    | none ↦ (w, minus_one)
    | some file ↦
        if not (has_read_access file.flags) || is_negative request.count
        then (w, minus_one)
        else if request.count == 0
        then (w, 0)
        else elim (get_guest_memory w.mem_size request.buffer request.count) [
          | none ↦ (w, minus_one)
          | some at ↦ elim (H.read w.host file.host_descriptor request.count) [
            | failed s ↦ (with_host H s w, minus_one)
            | done s bytes ↦
                (record w { host = s; mem = store_bytes w.mem at bytes }, length bytes % 2 ^ 32)
          ]
        ]
  ]

  -- `writeFile` once the file is private, through the same entry of the map.
  unfoldable pub write_private : FileRequest → World H → World H × Int32
  unfolding load_bytes
  write_private request w =
      if request.count == 0
      then (w, 0)
      else elim (get_guest_memory w.mem_size request.buffer request.count) [
        | none ↦ (w, minus_one)
        | some at ↦ elim (find request.descriptor w.files.open_files) [
          | none ↦ (w, minus_one)
          | some file ↦
              elim (H.write w.host file.host_descriptor (load_bytes w.mem at request.count)) [
                | failed s ↦ (with_host H s w, minus_one)
                | done s n ↦ (with_host H s w, n % 2 ^ 32)
              ]
        ]
      ]

  unfoldable pub write_file : FileRequest → World H → World H × Int32
  unfolding write_private
  write_file request w = elim (find request.descriptor w.files.open_files) [
    | none ↦ (w, minus_one)
    | some file ↦
        if not (has_write_access file.flags) || is_negative request.count
        then (w, minus_one)
        else let (w1, prepared) = prepare_file_for_write H file w in
          if not prepared then (w1, minus_one) else write_private request w1
  ]

  -- `lseek` with its result as an `int`.
  unfoldable pub seek_to : OpenFile → ℤ → Whence → World H → World H × Int32
  seek_to file offset whence w = elim (H.lseek w.host file.host_descriptor offset whence) [
    | failed s ↦ (with_host H s w, minus_one)
    | done s at ↦ (with_host H s w, if ltb (2 ^ 31 - 1) at then minus_one else at)
  ]

  unfoldable pub seek_file : FileRequest → World H → World H × Int32
  unfolding seek_to
  seek_file request w = elim (find request.descriptor w.files.open_files) [
    | none ↦ (w, minus_one)
    | some file ↦
        if request.flags == file_seek_set
        then seek_to file (signed32 request.offset) seek_set w
        else if request.flags == file_seek_end
        then seek_to file (pos 0) seek_end w
        else (w, minus_one)
  ]

  unfoldable pub process_file_request : FileRequest → World H → World H × Int32
  process_file_request request w =
      if request.operation == file_operation_open
      then open_file request w
      else if request.operation == file_operation_close
      then close_file request.descriptor w
      else if request.operation == file_operation_read
      then read_file request w
      else if request.operation == file_operation_write
      then write_file request w
      else if request.operation == file_operation_lseek
      then seek_file request w
      else (w, minus_one)
