-- ===== src/FileIo/Port.antt =====
-- host/src/file_io.cpp, `handleFileIo` and `closeGuestFiles`: the port through which requests and
-- results pass, and the end of a VM.
use kvm_hypervisor.Base.{ℕ, ◌-◌, not, ◌||◌, Option, none, some, [], ◌∷◌, ltb, ◌==◌, if◌then◌else◌}
use kvm_hypervisor.Base.Int.{Int32, minus_one}
use kvm_hypervisor.Base.Memory.{Memory, read_le, write_le}
use kvm_hypervisor.Exit.{Io, is_in, is_out}
use kvm_hypervisor.Protocol.{file_io_port}
use kvm_hypervisor.FileIo.Host.{Host}
use kvm_hypervisor.FileIo.Names.{get_guest_memory}
use kvm_hypervisor.FileIo.State.{World, OpenFiles, decode_request, file_request_size}
use kvm_hypervisor.FileIo.Private.{closed, with_host}
use kvm_hypervisor.FileIo.Requests.{process_file_request, with_files}

module _ (H : Host) where
  -- The request at a guest address, and its result.
  unfoldable pub answer_request : ℕ → World H → World H × Int32
  answer_request address w = elim (get_guest_memory w.mem_size address file_request_size) [
    | none ↦ (w, minus_one)
    | some at ↦ process_file_request H (decode_request w.mem at) w
  ]

  unfoldable pub push_result : World H → Int32 → World H
  push_result w result = record w {
    files = record w.files { pending_results = result ∷ w.files.pending_results };
  }

  -- The last result that the guest has not read, and the world without it.
  unfoldable pub pop_result : World H → World H × Int32
  pop_result w = elim w.files.pending_results [
    | [] ↦ (w, minus_one)
    | result ∷ rest ↦ (record w { files = record w.files { pending_results = rest } }, result)
  ]

  -- The world after the exit, and the mapping's data area.
  unfoldable pub handle_out : ℕ → Memory → World H → World H × Memory
  unfolding answer_request push_result
  handle_out data_at area w =
      let (w1, result) = answer_request (read_le 4 area data_at) w in (push_result w1 result, area)

  unfoldable pub handle_in : ℕ → Memory → World H → World H × Memory
  unfolding pop_result
  handle_in data_at area w = let (w1, result) = pop_result w in (w1, write_le 4 area data_at result)

  -- None where the exit is no file request.
  unfoldable pub handle_file_io : Io → ℕ → Memory → World H → Option (World H × Memory)
  unfolding handle_out handle_in
  handle_file_io io mapping_size area w =
      if not (io.port == file_io_port) || not (io.size == 4) || not (io.count == 1)
      then none
      else if ltb mapping_size io.data_offset || ltb (mapping_size - io.data_offset) 4
      then none
      else if is_out io.direction
      then some (handle_out io.data_offset area w)
      else if is_in io.direction
      then some (handle_in io.data_offset area w)
      else none

  unfoldable pub close_all : OpenFiles → H.State → H.State
  close_all [] s = s
  close_all ((d, file) ∷ files) s = close_all files (closed H (H.close s file.host_descriptor))

  unfoldable pub close_guest_files : World H → World H
  unfolding close_all
  close_guest_files w = with_files H [] (with_host H (close_all w.files.open_files w.host) w)
