-- ===== src/SharedBuffer/Reception.antt =====
-- host/src/shared_buffer.cpp: the reader's half of a transfer. The exits of a guest that asks for the
-- size, reads that many bytes and acknowledges them (guest/src/interrupts.c, `read_shared_buffer`).
use kvm_hypervisor.Base.{
  ℕ, zero, suc, ◌+◌, ◌≤◌, ◌<◌, ◌≡◌, ◌⊎◌, refl, sym, ◌∙◌, ap, true, false, arith, List, [], ◌∷◌,
  ◌++◌, length, take, get_or, inc64, Option, none, some, if◌then◌else◌, ◌==◌, take-suc,
}
use mathlib.Core.List.{append_assoc, append-nil}
use kvm_hypervisor.Base.Memory.{Memory, read_le, read_le-write_le}
use kvm_hypervisor.Protocol.{buffer_size}
use kvm_hypervisor.SharedBuffer.State.{Buffers, returned}
use kvm_hypervisor.SharedBuffer.{
  start_reading, take_byte, acknowledge, begin_reader_round, read_shared_byte, finish_reader_round,
}

-- The exits of the loop that reads `n` bytes: the bytes, and the state after.
unfoldable pub receive : ℕ → ℕ → Buffers → Option (List ℕ × Buffers)
receive data_at zero b = some ([], b)
receive data_at (suc n) b = elim (read_shared_byte data_at b) [
  | returned true b' ↦ elim (receive data_at n b') [
    | some (xs, b'') ↦ some (b'.area data_at ∷ xs, b'')
    | none ↦ none
  ]
  | _ ↦ none
]

-- `n` bytes can be read from the current place on.
record IsAt (b : Buffers) (n : ℕ) : Type 0 where
  running : b.shared.stopped ≡ false
  current : b.own.active_read_generation ≡ b.shared.generation
  enough : b.own.read_offset + n ≤ b.shared.size
  room : length b.shared.bytes ≡ buffer_size
  fits : b.shared.size ≤ buffer_size

started-IsAt :
    (data_at : ℕ) (b : Buffers)
    → b.shared.stopped ≡ false
    → length b.shared.bytes ≡ buffer_size
    → b.shared.size ≤ buffer_size
    → IsAt (start_reading data_at b) b.shared.size
unfolding start_reading
started-IsAt data_at b running room fits = ground arith

pub begin_reader_round-starts :
    (data_at : ℕ) (b : Buffers)
    → b.shared.stopped ≡ false
    → b.shared.data_ready ≡ true
    → b.own.last_read_generation < b.shared.generation
    → (b.own.read_completed ≡ true) ⊎ (b.own.active_read_generation ≤ b.own.last_read_generation)
    → begin_reader_round data_at b ≡ returned true (start_reading data_at b)
unfolding begin_reader_round
begin_reader_round-starts data_at b running ready new free = ground arith

-- The guest reads back the size that the host put into its mapping.
pub told_size :
    (data_at : ℕ) (b : Buffers)
    → b.shared.size ≤ buffer_size
    → read_le 4 (start_reading data_at b).area data_at ≡ b.shared.size
unfolding start_reading
told_size data_at b fits = read_le-write_le 4 b.area data_at b.shared.size (omega arith)

read_shared_byte-takes :
    (data_at n : ℕ) (b : Buffers)
    → IsAt b (suc n)
    → read_shared_byte data_at b ≡ returned true (take_byte data_at b)
unfolding read_shared_byte
read_shared_byte-takes data_at n b v = ground arith

take_byte-IsAt : (data_at n : ℕ) (b : Buffers) → IsAt b (suc n) → IsAt (take_byte data_at b) n
unfolding take_byte
take_byte-IsAt data_at n b v = ground arith

-- `xs` are the `n` bytes from the read offset of `b` on, and `b'` is the state after them.
pub record IsReceived (n : ℕ) (b : Buffers) (xs : List ℕ) (b' : Buffers) : Type 0 where
  pub content :
      take (b.own.read_offset + n) b.shared.bytes ≡ take b.own.read_offset b.shared.bytes ++ xs
  pub offset : b'.own.read_offset ≡ b.own.read_offset + n
  pub same_shared : b'.shared ≡ b.shared
  pub same_active : b'.own.active_read_generation ≡ b.own.active_read_generation
  pub same_completed : b'.own.read_completed ≡ b.own.read_completed

IsReceived-none : (b : Buffers) → IsReceived 0 b [] b
IsReceived-none b = record {
  content = let e : b.own.read_offset + 0 ≡ b.own.read_offset = omega arith in rw (e, append-nil);
  offset = omega arith;
  same_shared = refl;
  same_active = refl;
  same_completed = refl;
}

IsReceived-more :
    (data_at n : ℕ) (b b' : Buffers) (xs : List ℕ)
    → IsAt b (suc n)
    → IsReceived n (take_byte data_at b) xs b'
    → IsReceived (suc n) b ((take_byte data_at b).area data_at ∷ xs) b'
unfolding take_byte
IsReceived-more data_at n b b' xs v r = record {
  content = regroup r.content;
  offset = omega (arith, r.offset, v.enough, v.fits);
  same_shared = r.same_shared;
  same_active = r.same_active;
  same_completed = r.same_completed;
}
  where
    o : ℕ
    o = b.own.read_offset

    next : inc64 o ≡ suc o
    next = omega (arith, v.enough, v.fits)

    byte :
        (if data_at == data_at then get_or b.shared.bytes o 0 else b.area data_at)
        ≡ get_or b.shared.bytes o 0
    byte = ground arith

    regroup :
        take (inc64 o + n) b.shared.bytes ≡ take (inc64 o) b.shared.bytes ++ xs
        → take (o + suc n) b.shared.bytes
          ≡ take o b.shared.bytes
            ++ (if data_at == data_at then get_or b.shared.bytes o 0 else b.area data_at) ∷ xs
    regroup h =
        let e : inc64 o + n ≡ o + suc n = omega (arith, next) in
        let h' : take (o + suc n) b.shared.bytes ≡ take (suc o) b.shared.bytes ++ xs =
          rw (e, next) at h in
        rw byte (
          h'
          ∙ rw
              (take-suc b.shared.bytes o 0 (omega (arith, v.enough, v.fits, v.room)), append_assoc))

-- The reads succeed and give the bytes from the read offset on.
receive_lem :
    (data_at n : ℕ) (b : Buffers)
    → IsAt b n
    → (xs : List ℕ) × (b' : Buffers) × (receive data_at n b ≡ some (xs, b')) × IsReceived n b xs b'
unfolding receive
receive_lem data_at zero b v = ([], b, refl, IsReceived-none b)
receive_lem data_at (suc n) b v =
    let (xs, b', e, r) =
      receive_lem data_at n (take_byte data_at b) (take_byte-IsAt data_at n b v) in
    (
      (take_byte data_at b).area data_at ∷ xs,
      b',
      rw (read_shared_byte-takes data_at n b v, receive) (rw (e, receive)),
      IsReceived-more data_at n b b' xs v r,
    )

finish_reader_round-accepts :
    (data_at : ℕ) (b : Buffers)
    → b.shared.stopped ≡ false
    → b.own.read_completed ≡ false
    → b.own.active_read_generation ≡ b.shared.generation
    → b.own.read_offset ≡ b.shared.size
    → read_le 4 b.area data_at ≡ b.shared.size
    → b.shared.completed_readers < b.shared.reader_count
    → finish_reader_round data_at b ≡ returned true (acknowledge b)
unfolding finish_reader_round
finish_reader_round-accepts data_at b running pending current whole told short = ground arith

whole_content :
    (data_at : ℕ) (b b' : Buffers) (xs : List ℕ)
    → IsReceived b.shared.size (start_reading data_at b) xs b'
    → xs ≡ take b.shared.size b.shared.bytes
unfolding start_reading
whole_content data_at b b' xs r =
    let e : 0 + b.shared.size ≡ b.shared.size = omega arith in rw e at (sym r.content)

-- The reader's part up to its acknowledgement: the size, then that many bytes.
unfoldable pub download : ℕ → Buffers → Option (List ℕ × Buffers)
unfolding receive
download data_at b = elim (begin_reader_round data_at b) [
  | returned true b' ↦ receive data_at (read_le 4 b'.area data_at) b'
  | _ ↦ none
]

-- A reader that has not yet taken a published generation is told its size and gets as many bytes,
-- those that the buffer begins with; its acknowledgement of that size is accepted, and counted.
pub download_lem :
    (data_at : ℕ) (b : Buffers)
    → b.shared.stopped ≡ false
    → b.shared.data_ready ≡ true
    → b.own.last_read_generation < b.shared.generation
    → (b.own.read_completed ≡ true) ⊎ (b.own.active_read_generation ≤ b.own.last_read_generation)
    → length b.shared.bytes ≡ buffer_size
    → b.shared.size ≤ buffer_size
    → b.shared.completed_readers < b.shared.reader_count
    → (b' : Buffers) × (download data_at b ≡ some (take b.shared.size b.shared.bytes, b'))
      × (b'.shared ≡ b.shared)
      × ((ack_at : ℕ) (area : Memory)
          → read_le 4 area ack_at ≡ b.shared.size
          → finish_reader_round ack_at (record b' { area = area })
            ≡ returned true (acknowledge (record b' { area = area })))
unfolding download start_reading
download_lem data_at b running ready new free room fits short =
    let (xs, b', e, r) =
      receive_lem data_at b.shared.size (start_reading data_at b)
        (started-IsAt data_at b running room fits) in
    (
      b',
      rw (begin_reader_round-starts data_at b running ready new free, download)
          (rw (told_size data_at b fits, e)
            (ap (λ ys. some (ys, b')) (whole_content data_at b b' xs r))),
      r.same_shared,
      λ ack_at area told.
          finish_reader_round-accepts ack_at (record b' { area = area }) (ground (arith, r))
            (ground (arith, r)) (ground (arith, r)) (ground (arith, r)) (ground (arith, r))
            (ground (arith, r)),
    )
