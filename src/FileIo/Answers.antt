-- ===== src/FileIo/Answers.antt =====
-- host/src/file_io.cpp, `handleFileIo`: requests and results as the guest sees them at the port.
use Prim.Native.Nat.{◌^◌}
use kvm_hypervisor.Base.{
  ℕ, ◌+◌, ◌-◌, ◌≤◌, ◌<◌, ◌≡◌, ◌⊎◌, inl, inr, subst, ap, arith, some, Option-cases, true, false,
}
use kvm_hypervisor.Base.Int.{Int32}
use kvm_hypervisor.Base.Memory.{Memory, read_le, write_le, read_le-write_le}
use kvm_hypervisor.Exit.{Io, is_in, is_out, io_in, io_out}
use kvm_hypervisor.Protocol.{file_io_port}
use kvm_hypervisor.FileIo.Host.{Host}
use kvm_hypervisor.FileIo.Names.{get_guest_memory}
use kvm_hypervisor.FileIo.State.{FileRequest, World, decode_request, file_request_size, find}
use kvm_hypervisor.FileIo.Private.{prepare_file_for_write}
use kvm_hypervisor.FileIo.Requests.{
  process_file_request, open_file, close_file, read_file, write_file, seek_file, write_private,
}
use kvm_hypervisor.FileIo.Valid.{IsValid}
use kvm_hypervisor.FileIo.Preserved.{process_file_request-IsValid}
use kvm_hypervisor.FileIo.Port.{
  answer_request, push_result, pop_result, handle_out, handle_in, handle_file_io,
}

module _ (H : Host) where
  -- Every result fits in the four bytes of an IN.
  open_file-word :
      (request : FileRequest) (w : World H)
      → w.files.next_descriptor < 2 ^ 32
      → (open_file H request w).1 < 2 ^ 32
  unfolding open_file
  open_file-word request w small = ground arith

  close_file-word : (d : Int32) (w : World H) → (close_file H d w).1 < 2 ^ 32
  unfolding close_file
  close_file-word d w = ground arith

  read_file-word : (request : FileRequest) (w : World H) → (read_file H request w).1 < 2 ^ 32
  unfolding read_file
  read_file-word request w = ground arith

  write_private-word :
      (request : FileRequest) (w : World H) → (write_private H request w).1 < 2 ^ 32
  unfolding write_private
  write_private-word request w = ground arith

  write_file-word : (request : FileRequest) (w : World H) → (write_file H request w).1 < 2 ^ 32
  unfolding write_file
  write_file-word request w = elim (Option-cases (find request.descriptor w.files.open_files)) [
    | inl e ↦ ground arith
    | inr (file, e) ↦ ground (arith, write_private-word request (prepare_file_for_write H file w).0)
  ]

  seek_file-word : (request : FileRequest) (w : World H) → (seek_file H request w).1 < 2 ^ 32
  unfolding seek_file
  seek_file-word request w = ground arith

  pub process_file_request-word :
      (request : FileRequest) (w : World H)
      → w.files.next_descriptor < 2 ^ 32
      → (process_file_request H request w).1 < 2 ^ 32
  unfolding process_file_request
  process_file_request-word request w small = ground (
    arith,
    open_file-word request w small,
    close_file-word request.descriptor w,
    read_file-word request w,
    write_file-word request w,
    seek_file-word request w,
  )

  pub answer_request-word :
      (address : ℕ) (w : World H)
      → w.files.next_descriptor < 2 ^ 32
      → (answer_request H address w).1 < 2 ^ 32
  unfolding answer_request
  answer_request-word address w small =
      elim (Option-cases (get_guest_memory w.mem_size address file_request_size)) [
        | inl e ↦ ground arith
        | inr (at, e) ↦ ground (arith, process_file_request-word (decode_request w.mem at) w small)
      ]

  answer_request-IsValid :
      (address : ℕ) (w : World H)
      → w.files.next_descriptor < 2 ^ 31 - 1
      → IsValid H w
      → IsValid H (answer_request H address w).0
  unfolding answer_request
  answer_request-IsValid address w small v =
      elim (Option-cases (get_guest_memory w.mem_size address file_request_size)) [
        | inl e ↦ ground (arith, v)
        | inr (at, e) ↦
            ground (arith, process_file_request-IsValid H (decode_request w.mem at) w small v)
      ]

  -- An access of four bytes at the file port whose datum lies inside the mapping.
  abbrev pub IsFileIo : Io → ℕ → Type 0
  IsFileIo io mapping_size =
      (io.port ≡ file_io_port)
      × (io.size ≡ 4)
      × (io.count ≡ 1)
      × (io.data_offset + 4 ≤ mapping_size)

  handle_file_io-out :
      (io : Io) (mapping_size : ℕ) (area : Memory) (w : World H)
      → IsFileIo io mapping_size
      → is_out io.direction ≡ true
      → handle_file_io H io mapping_size area w ≡ some (handle_out H io.data_offset area w)
  unfolding handle_file_io
  handle_file_io-out io mapping_size area w i d = ground arith

  handle_file_io-in :
      (io : Io) (mapping_size : ℕ) (area : Memory) (w : World H)
      → IsFileIo io mapping_size
      → is_in io.direction ≡ true
      → is_out io.direction ≡ false
      → handle_file_io H io mapping_size area w ≡ some (handle_in H io.data_offset area w)
  unfolding handle_file_io
  handle_file_io-in io mapping_size area w i d o = ground arith

  -- An OUT that gives the address of a request, followed by an IN, delivers the result of that request
  -- in the four bytes of the IN's datum, whatever results were pending before, and leaves the world as
  -- the request left it. Both accesses are of four bytes at the file port with their datum inside the
  -- mapping, and the descriptor counter is a bit pattern of 32 bits.
  pub handle_file_io-answers :
      (asked read : Io) (mapping_size : ℕ) (area : Memory) (w : World H)
      → IsFileIo asked mapping_size
      → asked.direction ≡ io_out
      → IsFileIo read mapping_size
      → read.direction ≡ io_in
      → w.files.next_descriptor < 2 ^ 32
      → (w1 : World H) × (area1 : Memory) × (area2 : Memory) × (handle_file_io H asked mapping_size
            area w
          ≡ some (w1, area1))
        × (handle_file_io H read mapping_size area1 w1
            ≡ some ((answer_request H (read_le 4 area asked.data_offset) w).0, area2))
        × (read_le 4 area2 read.data_offset
            ≡ (answer_request H (read_le 4 area asked.data_offset) w).1)
  unfolding handle_out handle_in push_result pop_result
  handle_file_io-answers asked read mapping_size area w a out r in_ small =
      let (w1, area1) = handle_out H asked.data_offset area w in
      let answer = answer_request H (read_le 4 area asked.data_offset) w in
      (
        w1,
        area1,
        write_le 4 area1 read.data_offset answer.1,
        handle_file_io-out asked mapping_size area w a (ap is_out out),
        handle_file_io-in read mapping_size area1 w1 r (ap is_in in_) (ap is_out in_),
        read_le-write_le 4 area1 read.data_offset answer.1
            (answer_request-word (read_le 4 area asked.data_offset) w small),
      )

  handle_out-IsValid :
      (data_at : ℕ) (area : Memory) (w : World H)
      → w.files.next_descriptor < 2 ^ 31 - 1
      → IsValid H w
      → IsValid H (handle_out H data_at area w).0
  unfolding handle_out push_result
  handle_out-IsValid data_at area w small v =
      answer_request-IsValid (read_le 4 area data_at) w small v

  pop_result-IsValid : (w : World H) → IsValid H w → IsValid H (pop_result H w).0
  unfolding pop_result
  pop_result-IsValid w v = ground (arith, v)

  handle_in-IsValid :
      (data_at : ℕ) (area : Memory) (w : World H)
      → IsValid H w
      → IsValid H (handle_in H data_at area w).0
  unfolding handle_in
  handle_in-IsValid data_at area w v = pop_result-IsValid w v

  pub handle_file_io-cases :
      (io : Io) (mapping_size : ℕ) (area : Memory) (w : World H) (after : World H × Memory)
      → handle_file_io H io mapping_size area w ≡ some after
      → (handle_out H io.data_offset area w ≡ after) ⊎ (handle_in H io.data_offset area w ≡ after)
  unfolding handle_file_io
  handle_file_io-cases io mapping_size area w after h = ground arith

  -- While the descriptor counter is below the greatest `int`, every exit that is taken as a file request
  -- keeps the table of open files well formed: descriptors are distinct and lie from 3 up to the next
  -- one, and every file is the VM's own file of a valid name, or the shared file of that name, open
  -- with valid flags.
  pub handle_file_io-IsValid :
      (io : Io) (mapping_size : ℕ) (area : Memory) (w : World H) (after : World H × Memory)
      → w.files.next_descriptor < 2 ^ 31 - 1
      → IsValid H w
      → handle_file_io H io mapping_size area w ≡ some after
      → IsValid H after.0
  handle_file_io-IsValid io mapping_size area w after small v h =
      elim (handle_file_io-cases io mapping_size area w after h) [
        | inl e ↦
            subst (λ (x : World H × Memory). IsValid H x.0) e
              (handle_out-IsValid io.data_offset area w small v)
        | inr e ↦
            subst (λ (x : World H × Memory). IsValid H x.0) e
              (handle_in-IsValid io.data_offset area w v)
      ]
