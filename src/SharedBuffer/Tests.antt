-- ===== src/SharedBuffer/Tests.antt =====
-- Tests of the shared buffer, and its theorems at concrete states.
use kvm_hypervisor.Base.{ℕ, ◌≡◌, refl, true, [], ◌∷◌, arith, some, take, inr}
use kvm_hypervisor.Base.Memory.{Memory, read_le, write_le}
use kvm_hypervisor.SharedBuffer.{
  handle_shared_buffer_io, get_io_data, dispatch, deliver_mode, begin_writer_round,
  write_shared_byte, finish_writer_round, begin_reader_round, read_shared_byte, finish_reader_round,
}
use kvm_hypervisor.SharedBuffer.{acknowledge, take_byte}
use kvm_hypervisor.SharedBuffer.State.{Buffers, returned, initial_state, initial_vm_state}
use kvm_hypervisor.SharedBuffer.System.{System, view, put_back, exit, initial_system}
use kvm_hypervisor.SharedBuffer.Bounds.{IsBounded, handle_shared_buffer_io-IsBounded}
use kvm_hypervisor.SharedBuffer.Transfer.{upload}
use kvm_hypervisor.SharedBuffer.Reception.{download}
use kvm_hypervisor.SharedBuffer.EndToEnd.{download-upload}
use kvm_hypervisor.SharedBuffer.Schedule.{serve, ask, io_of}
use kvm_hypervisor.SharedBuffer.Acknowledged.{has_acknowledged}
use kvm_hypervisor.SharedBuffer.Agreement.{finish_writer_round-waits, Step-keeps_data}
use kvm_hypervisor.SharedBuffer.Schedule.{
  Reached, run, at_start, under_way, to_the_end, zeros, word,
}

reading : Reached 1
unfolding run handle_shared_buffer_io get_io_data dispatch deliver_mode begin_writer_round
    write_shared_byte finish_writer_round begin_reader_round read_shared_byte finish_reader_round
    read_le write_le
reading = run (at_start 1) under_way

finished : Reached 1
unfolding reading
finished = run reading to_the_end

reading_steps : reading.steps ≡ 6
unfolding reading
reading_steps = refl

finished_state :
    (finished.steps ≡ 9)
    × (finished.last.shared.completed_readers ≡ 1)
    × ((finished.last.vms 1).transfer_completed ≡ true)
    × (take 2 finished.last.shared.bytes ≡ 7 ∷ 9 ∷ [])
unfolding finished
finished_state = (refl, refl, refl, refl)

finish_writer_round-waits_example :
    has_acknowledged finished.last.shared.generation (finished.last.vms 1) ≡ true
unfolding finished
finish_writer_round-waits_example =
    finish_writer_round-waits (omega arith) (omega arith) finished.reach 0 zeros refl 1
      (omega arith) (omega arith)

-- The reader takes a byte while it is at work.
abbrev after_byte : System
after_byte = put_back reading.last 1 (take_byte 0 (view reading.last 1 zeros))

Step-keeps_data_example :
    (after_byte.shared.bytes ≡ reading.last.shared.bytes)
    × (after_byte.shared.size ≡ reading.last.shared.size)
    × (after_byte.shared.generation ≡ reading.last.shared.generation)
unfolding reading
Step-keeps_data_example =
    Step-keeps_data {k = reading.steps} {s = reading.last} {t = after_byte} (omega arith)
      (omega arith) reading.reach 1 (omega arith) (omega arith)
      (record { begun = refl; some_round = omega arith; unfinished = refl })
      (exit 1 (io_of (ask 1 1 0x510)) 64 zeros {done = true}
        {b = take_byte 0 (view reading.last 1 zeros)} (omega arith) refl)

-- A writer that announces two bytes in a fresh buffer with one reader.
abbrev announcing : Buffers
announcing = record { shared = initial_state 1; own = initial_vm_state 1; area = word 2 }

download-upload_example :
    (b' r : Buffers) × (upload 0 (7 ∷ 9 ∷ []) announcing ≡ returned true b')
    × (download 4 (record { shared = b'.shared; own = initial_vm_state 0; area = zeros })
        ≡ some (7 ∷ 9 ∷ [], r))
    × (r.shared ≡ b'.shared)
    × ((ack_at : ℕ) (acks : Memory)
        → read_le 4 acks ack_at ≡ 2
        → finish_reader_round ack_at (record r { area = acks })
          ≡ returned true (acknowledge (record r { area = acks })))
unfolding read_le
download-upload_example =
    download-upload 0 (7 ∷ 9 ∷ []) announcing refl refl refl refl (omega arith) (omega arith)
      (omega arith) 4 (initial_vm_state 0) zeros
      (record { past = omega arith; between = inr (omega arith) })

-- The same run as `reading`, before the reader begins.
published : Reached 1
unfolding reading
published = run (at_start 1) (take 5 under_way)

initial_bounds : IsBounded (initial_state 1)
initial_bounds = ground arith

handle_shared_buffer_io-IsBounded_example :
    IsBounded (serve (at_start 1) (ask 0 1 0x510)).last.shared
unfolding reading
handle_shared_buffer_io-IsBounded_example =
    handle_shared_buffer_io-IsBounded (io_of (ask 0 1 0x510)) 64 (view (initial_system 1) 0 zeros)
      (λ a. omega arith) initial_bounds refl

-- The writer has announced two bytes and sent none.
abbrev early : Buffers
early = record {
  shared = record (initial_state 1) { expected_bytes = 2; size = 2; round_in_progress = true };
  own = record (initial_vm_state 0) { mode_delivered = true };
  area = zeros;
}

-- A reader that never began a round gets a byte that the writer has not sent.
reads_early : read_shared_byte 0 early ≡ returned true (take_byte 0 early)
unfolding read_shared_byte
reads_early = refl

-- Nothing has been announced at all.
abbrev idle : Buffers
idle = record early { shared = initial_state 1 }

-- Its acknowledgement is accepted and completes its transfer, though nothing was published.
acknowledges_early : finish_reader_round 0 idle ≡ returned true (acknowledge idle)
unfolding read_le finish_reader_round
acknowledges_early = refl
