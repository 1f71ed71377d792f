-- ===== src/Guest/Received.antt =====
-- host/src/shared_buffer.cpp: how the INs of a reader are served one by one.
use kvm_hypervisor.Base.{
  ℕ, suc, ◌+◌, ◌≤◌, ◌≡◌, refl, arith, true, false, List, ◌∷◌, Option, some, none,
}
use kvm_hypervisor.Base.Memory.{read_le}
use kvm_hypervisor.Exit.{Io, io_in}
use kvm_hypervisor.Protocol.{shared_buffer_port, vm_mode_reader}
use kvm_hypervisor.SharedBuffer.State.{Buffers, Outcome, blocked, returned}
use kvm_hypervisor.SharedBuffer.{
  handle_shared_buffer_io, dispatch, get_io_data, read_shared_byte, begin_reader_round, take_byte,
  start_reading,
}
use kvm_hypervisor.SharedBuffer.Reception.{receive, download}

abbrev pub byte_in : ℕ → Io
byte_in d = record {
  direction = io_in;
  size = 1;
  port = shared_buffer_port;
  count = 1;
  data_offset = d;
}

abbrev pub word_in : ℕ → Io
word_in d = record {
  direction = io_in;
  size = 4;
  port = shared_buffer_port;
  count = 1;
  data_offset = d;
}

pub handle-byte_in :
    (d size : ℕ) (b : Buffers)
    → d + 4 ≤ size
    → b.own.mode_delivered ≡ true
    → b.own.mode ≡ vm_mode_reader
    → handle_shared_buffer_io (byte_in d) size b ≡ read_shared_byte d b
unfolding handle_shared_buffer_io dispatch get_io_data
handle-byte_in d size b inside delivered reader = ground arith

pub handle-word_in :
    (d size : ℕ) (b : Buffers)
    → d + 4 ≤ size
    → b.own.mode_delivered ≡ true
    → b.own.mode ≡ vm_mode_reader
    → handle_shared_buffer_io (word_in d) size b ≡ begin_reader_round d b
unfolding handle_shared_buffer_io dispatch get_io_data
handle-word_in d size b inside delivered reader = ground arith

pub read_shared_byte-mode :
    (d : ℕ) (b b' : Buffers)
    → read_shared_byte d b ≡ returned true b'
    → (b'.own.mode ≡ b.own.mode) × (b'.own.mode_delivered ≡ b.own.mode_delivered)
unfolding read_shared_byte take_byte
read_shared_byte-mode d b b' e = (ground arith, ground arith)

pub begin_reader_round-mode :
    (d : ℕ) (b b' : Buffers)
    → begin_reader_round d b ≡ returned true b'
    → (b'.own.mode ≡ b.own.mode) × (b'.own.mode_delivered ≡ b.own.mode_delivered)
unfolding begin_reader_round start_reading
begin_reader_round-mode d b b' e = (ground arith, ground arith)

abbrev Got : Type 0
Got = Option (List ℕ × Buffers)

-- What a loop of reads ends with says what its first read and the rest ended with.
abbrev with_first : ℕ → Got → Got
with_first x none = none
with_first x (some (xs, b)) = some (x ∷ xs, b)

with_first-some :
    (x : ℕ) (r : Got) (xs : List ℕ) (b' : Buffers)
    → with_first x r ≡ some (xs, b')
    → (ys : List ℕ) × (r ≡ some (ys, b')) × (xs ≡ x ∷ ys)
with_first-some x none xs b' e = absurd (cc)
with_first-some x (some (ys, b)) xs b' e = (ys, ground (arith, e), ground (arith, e))

pub receive-first :
    (d n : ℕ) (b b' : Buffers) (xs : List ℕ)
    → receive d (suc n) b ≡ some (xs, b')
    → (b1 : Buffers) × (ys : List ℕ) × (read_shared_byte d b ≡ returned true b1)
      × (receive d n b1 ≡ some (ys, b'))
      × (xs ≡ b1.area d ∷ ys)
unfolding receive
receive-first d n b b' xs e = go (read_shared_byte d b) refl
  where
    go :
        (o : Outcome)
        → read_shared_byte d b ≡ o
        → (b1 : Buffers) × (ys : List ℕ) × (read_shared_byte d b ≡ returned true b1)
          × (receive d n b1 ≡ some (ys, b'))
          × (xs ≡ b1.area d ∷ ys)
    go (returned true b1) q =
        let first : with_first (b1.area d) (receive d n b1) ≡ some (xs, b') =
          ground (arith, e, q) in
        let (ys, rest, split) = with_first-some (b1.area d) (receive d n b1) xs b' first in
        (b1, ys, q, rest, split)
    go (returned false b1) q = absurd (ground (arith, e, q))
    go blocked q = absurd (ground (arith, e, q))

pub download-first :
    (d : ℕ) (b b' : Buffers) (xs : List ℕ)
    → download d b ≡ some (xs, b')
    → (b1 : Buffers) × (begin_reader_round d b ≡ returned true b1)
      × (receive d (read_le 4 b1.area d) b1 ≡ some (xs, b'))
unfolding download
download-first d b b' xs e = go (begin_reader_round d b) refl
  where
    go :
        (o : Outcome)
        → begin_reader_round d b ≡ o
        → (b1 : Buffers) × (begin_reader_round d b ≡ returned true b1)
          × (receive d (read_le 4 b1.area d) b1 ≡ some (xs, b'))
    go (returned true b1) q = (b1, q, ground (arith, e, q))
    go (returned false b1) q = absurd (ground (arith, e, q))
    go blocked q = absurd (ground (arith, e, q))
