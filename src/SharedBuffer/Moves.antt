-- ===== src/SharedBuffer/Moves.antt =====
-- host/src/shared_buffer.cpp: what a served request can do to the state. A property of the state
-- after a whole request follows from the changes that the operations make, each under the tests
-- that the code makes before it.
use kvm_hypervisor.Base.{◌<◌, ◌≡◌, ◌≢◌, ℕ, Bool, true, false}
use kvm_hypervisor.Base.Memory.{read_le}
use kvm_hypervisor.Protocol.{shared_buffer_status_port, vm_mode_reader, vm_mode_writer}
use kvm_hypervisor.Exit.{Io}
use kvm_hypervisor.SharedBuffer.State.{Buffers, returned}
use kvm_hypervisor.SharedBuffer.{
  give_mode, open_round, finish_writer_data, accept_byte, close_round, start_reading, take_byte,
  acknowledge, handle_shared_buffer_io,
}
use kvm_hypervisor.SharedBuffer.Cases.{
  After, deliver_mode_cases, begin_writer_round_cases, write_shared_byte_cases,
  finish_writer_round_cases, begin_reader_round_cases, read_shared_byte_cases,
  finish_reader_round_cases, dispatch_cases, handle_cases,
}

pub record Moves (P : Buffers → Type 0) (io : Io) (b : Buffers) : Type 0 where
  pub refused : P b
  pub given : (data_at : ℕ) → P (give_mode data_at b)
  pub opened :
      (data_at : ℕ)
      → b.own.mode ≡ vm_mode_writer
      → b.shared.round_in_progress ≡ false
      → 0 < read_le 4 b.area data_at
      → P (open_round (read_le 4 b.area data_at) b)
  pub emptied :
      (data_at : ℕ)
      → b.own.mode ≡ vm_mode_writer
      → b.shared.round_in_progress ≡ false
      → P (finish_writer_data (open_round 0 b))
  pub stored :
      (value : ℕ)
      → b.own.mode ≡ vm_mode_writer
      → b.shared.round_in_progress ≡ true
      → b.shared.data_ready ≡ false
      → b.shared.received_bytes < b.shared.expected_bytes
      → (accept_byte value b).shared.received_bytes ≢ b.shared.expected_bytes
      → P (accept_byte value b)
  pub published :
      (value : ℕ)
      → b.own.mode ≡ vm_mode_writer
      → b.shared.round_in_progress ≡ true
      → b.shared.data_ready ≡ false
      → b.shared.received_bytes < b.shared.expected_bytes
      → (accept_byte value b).shared.received_bytes ≡ b.shared.expected_bytes
      → P (finish_writer_data (accept_byte value b))
  pub closed :
      (data_at : ℕ)
      → b.own.mode ≡ vm_mode_writer
      → b.shared.data_ready ≡ true
      → b.shared.generation ≡ b.own.write_generation
      → b.shared.completed_readers ≡ b.shared.reader_count
      → P (close_round data_at b)
  pub started :
      (data_at : ℕ)
      → b.own.mode ≡ vm_mode_reader
      → b.shared.data_ready ≡ true
      → b.own.last_read_generation < b.shared.generation
      → P (start_reading data_at b)
  pub taken :
      (data_at : ℕ)
      → b.own.mode ≡ vm_mode_reader
      → b.own.active_read_generation ≡ b.shared.generation
      → b.own.read_offset < b.shared.size
      → P (take_byte data_at b)
  pub done :
      b.own.mode ≡ vm_mode_reader
      → io.port ≡ shared_buffer_status_port
      → b.own.read_completed ≡ false
      → b.own.active_read_generation ≡ b.shared.generation
      → b.own.read_offset ≡ b.shared.size
      → b.shared.completed_readers < b.shared.reader_count
      → P (acknowledge b)

pub handle-After :
    (P : Buffers → Type 0) (io : Io) (mapping_size : ℕ) (b : Buffers)
    → Moves P io b
    → After P (handle_shared_buffer_io io mapping_size b)
handle-After P io mapping_size b m =
    handle_cases (After P) b tt m.refused io mapping_size λ data_at.
      dispatch_cases (After P) b tt m.refused io data_at
        (deliver_mode_cases (After P) b tt m.refused io data_at (m.given data_at))
        (λ w.
          begin_writer_round_cases (After P) b tt m.refused data_at
            (λ e r. rw e (m.emptied data_at w r)) (λ r p. m.opened data_at w r p))
        (λ w.
          write_shared_byte_cases (After P) b tt m.refused (b.area data_at)
            (m.published (b.area data_at) w) (m.stored (b.area data_at) w))
        (λ w. finish_writer_round_cases (After P) b tt m.refused data_at (m.closed data_at w))
        (λ r. begin_reader_round_cases (After P) b tt m.refused data_at (m.started data_at r))
        (λ r. read_shared_byte_cases (After P) b tt m.refused data_at (m.taken data_at r))
        (λ r port.
          finish_reader_round_cases (After P) b tt m.refused data_at
            (λ c g o v l. m.done r port c g o l))

-- The same of a request that has returned.
pub handle_returned :
    (P : Buffers → Type 0) (io : Io) (mapping_size : ℕ) (b : Buffers) {done : Bool} {b' : Buffers}
    → Moves P io b
    → handle_shared_buffer_io io mapping_size b ≡ returned done b'
    → P b'
handle_returned P io mapping_size b m e = rw e at (handle-After P io mapping_size b m)
