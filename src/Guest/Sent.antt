-- ===== src/Guest/Sent.antt =====
-- host/src/shared_buffer.cpp: how the OUTs of a writer are served one by one.
use kvm_hypervisor.Base.{
  ℕ, zero, suc, ◌+◌, ◌≤◌, ◌≡◌, refl, ap, arith, true, false, List, ◌∷◌, length,
}
use kvm_hypervisor.Base.Memory.{Memory, read_le}
use kvm_hypervisor.Exit.{Io, io_out}
use kvm_hypervisor.Protocol.{shared_buffer_port, vm_mode_writer}
use kvm_hypervisor.FileIo.Requests.{load_bytes}
use kvm_hypervisor.SharedBuffer.State.{Buffers, Outcome, blocked, returned}
use kvm_hypervisor.SharedBuffer.{
  handle_shared_buffer_io, dispatch, get_io_data, write_shared_byte, begin_writer_round,
  accept_byte, finish_writer_data, open_round,
}
use kvm_hypervisor.SharedBuffer.Transfer.{send, upload, IsPublished}

abbrev pub byte_out : ℕ → Io
byte_out d = record {
  direction = io_out;
  size = 1;
  port = shared_buffer_port;
  count = 1;
  data_offset = d;
}

abbrev pub word_out : ℕ → Io
word_out d = record {
  direction = io_out;
  size = 4;
  port = shared_buffer_port;
  count = 1;
  data_offset = d;
}

pub handle-byte :
    (d size : ℕ) (b : Buffers)
    → d + 4 ≤ size
    → b.own.mode_delivered ≡ true
    → b.own.mode ≡ vm_mode_writer
    → handle_shared_buffer_io (byte_out d) size b ≡ write_shared_byte (b.area d) b
unfolding handle_shared_buffer_io dispatch get_io_data
handle-byte d size b inside delivered writer = ground arith

pub handle-word :
    (d size : ℕ) (b : Buffers)
    → d + 4 ≤ size
    → b.own.mode_delivered ≡ true
    → b.own.mode ≡ vm_mode_writer
    → handle_shared_buffer_io (word_out d) size b ≡ begin_writer_round d b
unfolding handle_shared_buffer_io dispatch get_io_data
handle-word d size b inside delivered writer = ground arith

abbrev pub with_area : Memory → Buffers → Buffers
with_area area b = record b { area = area }

abbrev pub outcome_with : Memory → Outcome → Outcome
outcome_with area blocked = blocked
outcome_with area (returned done b) = returned done (with_area area b)

-- A byte is taken alike whatever else is in the mapping, and the VM keeps its mode.
pub write_shared_byte-with_area :
    (x : ℕ) (b : Buffers) (area : Memory)
    → write_shared_byte x (with_area area b) ≡ outcome_with area (write_shared_byte x b)
unfolding write_shared_byte accept_byte finish_writer_data
write_shared_byte-with_area x b area = ground arith

-- So is a count.
pub begin_writer_round-with_area :
    (d : ℕ) (b : Buffers) (area : Memory)
    → read_le 4 area d ≡ read_le 4 b.area d
    → begin_writer_round d (with_area area b) ≡ outcome_with area (begin_writer_round d b)
unfolding begin_writer_round open_round finish_writer_data
begin_writer_round-with_area d b area same = ground arith

pub write_shared_byte-mode :
    (x : ℕ) (b b' : Buffers)
    → write_shared_byte x b ≡ returned true b'
    → (b'.own.mode ≡ b.own.mode) × (b'.own.mode_delivered ≡ b.own.mode_delivered)
unfolding write_shared_byte accept_byte finish_writer_data
write_shared_byte-mode x b b' e = (ground arith, ground arith)

pub begin_writer_round-mode :
    (d : ℕ) (b b' : Buffers)
    → begin_writer_round d b ≡ returned true b'
    → (b'.own.mode ≡ b.own.mode) × (b'.own.mode_delivered ≡ b.own.mode_delivered)
unfolding begin_writer_round open_round finish_writer_data
begin_writer_round-mode d b b' e = (ground arith, ground arith)

-- A loop of bytes that is served is a byte that is served, and the rest from there.
Outcome-taken :
    (o : Outcome) (next : Buffers → Outcome) (b' : Buffers)
    → elim o [ returned true b1 ↦ next b1 | other ↦ other ] ≡ returned true b'
    → (b1 : Buffers) × (o ≡ returned true b1) × (next b1 ≡ returned true b')
Outcome-taken blocked next b' e = absurd (cc)
Outcome-taken (returned true b1) next b' e = (b1, refl, e)
Outcome-taken (returned false b1) next b' e = absurd (ground arith)

pub send-first :
    (x : ℕ) (xs : List ℕ) (b b' : Buffers)
    → send (x ∷ xs) b ≡ returned true b'
    → (b1 : Buffers) × (write_shared_byte x b ≡ returned true b1) × (send xs b1 ≡ returned true b')
unfolding send
send-first x xs b b' e = Outcome-taken (write_shared_byte x b) (send xs) b' e

pub upload-first :
    (d : ℕ) (xs : List ℕ) (b b' : Buffers)
    → upload d xs b ≡ returned true b'
    → (b1 : Buffers) × (begin_writer_round d b ≡ returned true b1) × (send xs b1 ≡ returned true b')
unfolding upload
upload-first d xs b b' e = Outcome-taken (begin_writer_round d b) (send xs) b' e

pub length-load_bytes : (m : Memory) (a n : ℕ) → length (load_bytes m a n) ≡ n
unfolding load_bytes
length-load_bytes m a zero = refl
length-load_bytes m a (suc n) = ap suc (length-load_bytes m (a + 1) n)

pub IsPublished-with_area :
    (xs : List ℕ) (b b' : Buffers) (area : Memory)
    → IsPublished xs b b'
    → IsPublished xs b (with_area area b')
IsPublished-with_area xs b b' area p = record {
  ready = p.ready;
  running = p.running;
  round = p.round;
  next_generation = p.next_generation;
  mine = p.mine;
  size_kept = p.size_kept;
  completed_kept = p.completed_kept;
  readers_kept = p.readers_kept;
  room = p.room;
  content = p.content;
}
