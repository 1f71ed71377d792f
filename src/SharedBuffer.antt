-- ===== src/SharedBuffer.antt =====
-- host/src/shared_buffer.cpp: the buffer through which the writer VM
-- sends data to the reader VMs.
-- An operation holds the mutex from its first access of the shared state to its end, so it is one
-- atomic step. `condition.wait` with a predicate is the outcome `blocked` while the predicate is
-- false: the call stays where it is and is made again in a later state. `notify_all` has no state.
pub mod State
mod Cases
mod Moves
pub mod Bounds
pub mod System
mod Acknowledged
pub mod Agreement
pub mod Progress
pub mod Transfer
pub mod Reception
pub mod EndToEnd
pub mod TransferEnd
mod Schedule
mod Tests
use kvm_hypervisor.Base.{
  ℕ, ◌-◌, Bool, true, false, not, ◌&&◌, ◌||◌, Option, none, some, min, ltb, leb, ◌==◌,
  if◌then◌else◌, inc64, set, get_or,
}
use kvm_hypervisor.Base.Memory.{read_le, write_le, store}
use kvm_hypervisor.Protocol.{
  shared_buffer_port, shared_buffer_status_port, buffer_size, vm_mode_reader, vm_mode_writer,
}
use kvm_hypervisor.Exit.{Io, is_in, is_out}
use State.{SharedBufferState, Buffers, Outcome, blocked, returned}

-- The offset of the I/O data in the mapping, where the whole datum lies inside it.
unfoldable pub get_io_data : Io → ℕ → Option ℕ
get_io_data io mapping_size =
    if not (io.count == 1) || (not (io.size == 1) && not (io.size == 4))
    then none
    else if ltb mapping_size io.data_offset || ltb (mapping_size - io.data_offset) io.size
    then none
    else some io.data_offset

unfoldable pub finish_writer_data : Buffers → Buffers
finish_writer_data b = record b {
  shared = record b.shared { data_ready = true; generation = inc64 b.shared.generation };
  own = record b.own { write_generation = inc64 b.shared.generation };
}

pub give_mode : ℕ → Buffers → Buffers
give_mode data_at b = record b {
  own = record b.own { mode_delivered = true };
  area = store b.area data_at b.own.mode;
}

pub deliver_mode : Io → ℕ → Buffers → Outcome
unfolding give_mode
deliver_mode io data_at b =
    if not (io.port == shared_buffer_port) || not (is_in io.direction) || not (io.size == 1)
    then returned false b
    else returned true (give_mode data_at b)

-- The state in which a round starts, before the test for an empty transfer.
unfoldable pub open_round : ℕ → Buffers → Buffers
open_round requested b = record b {
  shared = record b.shared {
    expected_bytes = requested;
    received_bytes = 0;
    size = min requested buffer_size;
    completed_readers = 0;
    data_ready = false;
    round_in_progress = true;
  };
  own = record b.own { write_generation = 0 };
}

unfoldable pub begin_writer_round : ℕ → Buffers → Outcome
unfolding open_round finish_writer_data
begin_writer_round data_at b =
    let requested = read_le 4 b.area data_at in
    if not (b.shared.stopped || not b.shared.round_in_progress)
    then blocked
    else if b.shared.stopped
    then returned false b
    else if requested == 0
    then returned true (finish_writer_data (open_round requested b))
    else returned true (open_round requested b)

-- The byte is stored where it fits, and counted in any case.
unfoldable pub accept_byte : ℕ → Buffers → Buffers
accept_byte value b = record b {
  shared = record b.shared {
    bytes =
        if ltb b.shared.received_bytes buffer_size
        then set b.shared.bytes b.shared.received_bytes value
        else b.shared.bytes;
    received_bytes = inc64 b.shared.received_bytes;
  };
}

unfoldable pub write_shared_byte : ℕ → Buffers → Outcome
unfolding accept_byte finish_writer_data
write_shared_byte value b =
    if b.shared.stopped
      || not b.shared.round_in_progress
      || b.shared.data_ready
      || leb b.shared.expected_bytes b.shared.received_bytes
    then returned false b
    else if (accept_byte value b).shared.received_bytes == b.shared.expected_bytes
    then returned true (finish_writer_data (accept_byte value b))
    else returned true (accept_byte value b)

pub close_round : ℕ → Buffers → Buffers
close_round data_at b = record b {
  shared = record b.shared { round_in_progress = false };
  own = record b.own { write_generation = 0; transfer_completed = true };
  area = write_le 4 b.area data_at b.shared.size;
}

pub finish_writer_round : ℕ → Buffers → Outcome
unfolding close_round
finish_writer_round data_at b =
    if b.own.write_generation == 0
    then returned false b
    else if not (
        b.shared.stopped
        || b.shared.data_ready
          && b.shared.generation == b.own.write_generation
          && b.shared.completed_readers == b.shared.reader_count)
    then blocked
    else if b.shared.stopped
    then returned false b
    else returned true (close_round data_at b)

unfoldable pub start_reading : ℕ → Buffers → Buffers
start_reading data_at b = record b {
  own = record b.own {
    read_offset = 0;
    active_read_generation = b.shared.generation;
    read_completed = false;
  };
  area = write_le 4 b.area data_at b.shared.size;
}

unfoldable pub begin_reader_round : ℕ → Buffers → Outcome
unfolding start_reading
begin_reader_round data_at b =
    if ltb b.own.last_read_generation b.own.active_read_generation && not b.own.read_completed
    then returned false b
    else if not (
        b.shared.stopped
        || b.shared.data_ready && ltb b.own.last_read_generation b.shared.generation)
    then blocked
    else if b.shared.stopped
    then returned false b
    else returned true (start_reading data_at b)

unfoldable pub take_byte : ℕ → Buffers → Buffers
take_byte data_at b = record b {
  own = record b.own { read_offset = inc64 b.own.read_offset };
  area = store b.area data_at (get_or b.shared.bytes b.own.read_offset 0);
}

unfoldable pub read_shared_byte : ℕ → Buffers → Outcome
unfolding take_byte
read_shared_byte data_at b =
    if b.shared.stopped
      || not (b.own.active_read_generation == b.shared.generation)
      || leb b.shared.size b.own.read_offset
    then returned false b
    else returned true (take_byte data_at b)

pub acknowledge : Buffers → Buffers
acknowledge b = record b {
  shared = record b.shared { completed_readers = inc64 b.shared.completed_readers };
  own = record b.own {
    read_completed = true;
    last_read_generation = b.own.active_read_generation;
    transfer_completed = true;
  };
}

unfoldable pub finish_reader_round : ℕ → Buffers → Outcome
unfolding acknowledge
finish_reader_round data_at b =
    if b.shared.stopped
      || b.own.read_completed
      || not (b.own.active_read_generation == b.shared.generation)
      || not (b.own.read_offset == b.shared.size)
      || not (read_le 4 b.area data_at == b.shared.size)
      || leb b.shared.reader_count b.shared.completed_readers
    then returned false b
    else returned true (acknowledge b)

-- The dispatch once the port and the datum are known to be good.
unfoldable pub dispatch : Io → ℕ → Buffers → Outcome
dispatch io data_at b =
    if not b.own.mode_delivered
    then deliver_mode io data_at b
    else if io.port == shared_buffer_port && b.own.mode == vm_mode_writer
    then (if is_out io.direction && io.size == 4
        then begin_writer_round data_at b
        else if is_out io.direction && io.size == 1
        then write_shared_byte (b.area data_at) b
        else returned false b)
    else if io.port == shared_buffer_port && b.own.mode == vm_mode_reader
    then (if is_in io.direction && io.size == 4
        then begin_reader_round data_at b
        else if is_in io.direction && io.size == 1
        then read_shared_byte data_at b
        else returned false b)
    else if io.port == shared_buffer_status_port
        && b.own.mode == vm_mode_writer
        && is_in io.direction
        && io.size == 4
    then finish_writer_round data_at b
    else if io.port == shared_buffer_status_port
        && b.own.mode == vm_mode_reader
        && is_out io.direction
        && io.size == 4
    then finish_reader_round data_at b
    else returned false b

unfoldable pub handle_shared_buffer_io : Io → ℕ → Buffers → Outcome
handle_shared_buffer_io io mapping_size b =
    if not (io.port == shared_buffer_port) && not (io.port == shared_buffer_status_port)
    then returned false b
    else elim (get_io_data io mapping_size) [
      | none ↦ returned false b
      | some data_at ↦ dispatch io data_at b
    ]

unfoldable pub abort_shared_buffer : SharedBufferState → SharedBufferState
abort_shared_buffer state = record state { stopped = true }
