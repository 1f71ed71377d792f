-- ===== src/SharedBuffer/Cases.antt =====
-- host/src/shared_buffer.cpp: how a call can end. A property of all its outcomes follows from the
-- property of each, under the tests that lead there; the proofs about the component split by these.
use kvm_hypervisor.Base.{ℕ, ◌<◌, ◌≡◌, ◌≢◌, inl, inr, true, false, arith, Option-cases}
use kvm_hypervisor.Base.Memory.{read_le}
use kvm_hypervisor.Protocol.{shared_buffer_status_port, vm_mode_reader, vm_mode_writer}
use kvm_hypervisor.Exit.{Io}
use kvm_hypervisor.SharedBuffer.State.{Buffers, Outcome, blocked, returned}
use kvm_hypervisor.SharedBuffer.{
  get_io_data, deliver_mode, give_mode, begin_writer_round, open_round, finish_writer_data,
  write_shared_byte, accept_byte, finish_writer_round, close_round, begin_reader_round,
  start_reading, read_shared_byte, take_byte, finish_reader_round, acknowledge, dispatch,
  handle_shared_buffer_io,
}

-- A property of the state that an outcome leaves; a blocked call leaves nothing.
abbrev pub After {ℓ} : (Buffers → Type ℓ) → Outcome → Type ℓ
After P blocked = Unit
After P (returned _ b) = P b

module _ (P : Outcome → Type 0) (b : Buffers) (waits : P blocked)
    (refused : P (returned false b)) where
  pub begin_writer_round_cases :
      (data_at : ℕ)
      → (read_le 4 b.area data_at ≡ 0
          → b.shared.round_in_progress ≡ false
          → P (returned true (finish_writer_data (open_round (read_le 4 b.area data_at) b))))
      → (b.shared.round_in_progress ≡ false
          → 0 < read_le 4 b.area data_at
          → P (returned true (open_round (read_le 4 b.area data_at) b)))
      → P (begin_writer_round data_at b)
  unfolding begin_writer_round
  begin_writer_round_cases data_at empty opened = ground arith

  pub write_shared_byte_cases :
      (value : ℕ)
      → (b.shared.round_in_progress ≡ true
          → b.shared.data_ready ≡ false
          → b.shared.received_bytes < b.shared.expected_bytes
          → (accept_byte value b).shared.received_bytes ≡ b.shared.expected_bytes
          → P (returned true (finish_writer_data (accept_byte value b))))
      → (b.shared.round_in_progress ≡ true
          → b.shared.data_ready ≡ false
          → b.shared.received_bytes < b.shared.expected_bytes
          → (accept_byte value b).shared.received_bytes ≢ b.shared.expected_bytes
          → P (returned true (accept_byte value b)))
      → P (write_shared_byte value b)
  unfolding write_shared_byte
  write_shared_byte_cases value last more = ground arith

  pub finish_writer_round_cases :
      (data_at : ℕ)
      → (b.shared.data_ready ≡ true
          → b.shared.generation ≡ b.own.write_generation
          → b.shared.completed_readers ≡ b.shared.reader_count
          → P (returned true (close_round data_at b)))
      → P (finish_writer_round data_at b)
  unfolding finish_writer_round
  finish_writer_round_cases data_at closed = ground arith

  pub begin_reader_round_cases :
      (data_at : ℕ)
      → (b.shared.data_ready ≡ true
          → b.own.last_read_generation < b.shared.generation
          → P (returned true (start_reading data_at b)))
      → P (begin_reader_round data_at b)
  unfolding begin_reader_round
  begin_reader_round_cases data_at started = ground arith

  pub read_shared_byte_cases :
      (data_at : ℕ)
      → (b.own.active_read_generation ≡ b.shared.generation
          → b.own.read_offset < b.shared.size
          → P (returned true (take_byte data_at b)))
      → P (read_shared_byte data_at b)
  unfolding read_shared_byte
  read_shared_byte_cases data_at taken = ground arith

  pub finish_reader_round_cases :
      (data_at : ℕ)
      → (b.own.read_completed ≡ false
          → b.own.active_read_generation ≡ b.shared.generation
          → b.own.read_offset ≡ b.shared.size
          → read_le 4 b.area data_at ≡ b.shared.size
          → b.shared.completed_readers < b.shared.reader_count
          → P (returned true (acknowledge b)))
      → P (finish_reader_round data_at b)
  unfolding finish_reader_round
  finish_reader_round_cases data_at done = ground arith

  pub dispatch_cases :
      (io : Io) (data_at : ℕ)
      → P (deliver_mode io data_at b)
      → (b.own.mode ≡ vm_mode_writer → P (begin_writer_round data_at b))
      → (b.own.mode ≡ vm_mode_writer → P (write_shared_byte (b.area data_at) b))
      → (b.own.mode ≡ vm_mode_writer → P (finish_writer_round data_at b))
      → (b.own.mode ≡ vm_mode_reader → P (begin_reader_round data_at b))
      → (b.own.mode ≡ vm_mode_reader → P (read_shared_byte data_at b))
      → (b.own.mode ≡ vm_mode_reader
          → io.port ≡ shared_buffer_status_port
          → P (finish_reader_round data_at b))
      → P (dispatch io data_at b)
  unfolding dispatch
  dispatch_cases io data_at dm bw ws fw br rs fr = ground arith

  pub deliver_mode_cases :
      (io : Io) (data_at : ℕ)
      → P (returned true (give_mode data_at b))
      → P (deliver_mode io data_at b)
  unfolding deliver_mode
  deliver_mode_cases io data_at given = ground arith

  pub handle_cases :
      (io : Io) (mapping_size : ℕ)
      → ((data_at : ℕ) → P (dispatch io data_at b))
      → P (handle_shared_buffer_io io mapping_size b)
  unfolding handle_shared_buffer_io
  handle_cases io mapping_size served = elim (Option-cases (get_io_data io mapping_size)) [
    | inl e ↦ ground arith
    | inr (data_at, e) ↦ ground (arith, served data_at)
  ]
