-- ===== src/SharedBuffer/Transfer.antt =====
-- host/src/shared_buffer.cpp: a whole transfer. The writer's bytes, sent one by one as the guest does
-- (guest/src/interrupts.c, `write_shared_buffer`), are what a reader gets, cut to the buffer's size.
use kvm_hypervisor.Base.{
  ℕ, suc, ◌+◌, ◌^◌, ◌≤◌, ◌<◌, ◌≡◌, refl, sym, ◌∙◌, true, false, arith, dec_lt, List, [], ◌∷◌, ◌++◌,
  length, take, set, inc64, take-set, take_all, take-append_left, lt→ltb, le→ltb, length-append,
  length-set,
}
use mathlib.Core.List.{append_assoc}
use kvm_hypervisor.Base.Memory.{read_le}
use kvm_hypervisor.Protocol.{buffer_size}
use kvm_hypervisor.SharedBuffer.State.{Buffers, Outcome, returned}
use kvm_hypervisor.SharedBuffer.{
  open_round, finish_writer_data, accept_byte, write_shared_byte, begin_writer_round,
}

-- The exits of the loop that sends the bytes, as far as they are served.
unfoldable pub send : List ℕ → Buffers → Outcome
send [] b = returned true b
send (x ∷ xs) b = elim (write_shared_byte x b) [ returned true b' ↦ send xs b' | other ↦ other ]

-- A round in which `sent` has been received and `left` is to come.
record IsFilling (b : Buffers) (sent left : List ℕ) : Type 0 where
  open_round : b.shared.round_in_progress ≡ true
  unpublished : b.shared.data_ready ≡ false
  running : b.shared.stopped ≡ false
  room : length b.shared.bytes ≡ buffer_size
  counted : b.shared.received_bytes ≡ length sent
  wanted : b.shared.expected_bytes ≡ length sent + length left
  fits : length sent + length left < 2 ^ 32
  stored : take (length sent) b.shared.bytes ≡ take buffer_size sent

module _ (bytes sent : List ℕ) (x : ℕ) (room : length bytes ≡ buffer_size)
    (e : take (length sent) bytes ≡ take buffer_size sent) where
  length-next : length (sent ++ x ∷ []) ≡ suc (length sent)
  length-next = omega (arith, length-append sent (x ∷ []))

  -- A byte that fits is appended.
  stored_below :
      length sent < buffer_size
      → take (length (sent ++ x ∷ [])) (set bytes (length sent) x)
        ≡ take buffer_size (sent ++ x ∷ [])
  stored_below below =
      rw (length-next, take-set bytes (length sent) x (omega arith), e)
        (rw (
          take_all buffer_size sent (omega arith),
          take_all buffer_size (sent ++ x ∷ []) (omega (arith, length-next)),
        ))

  -- A byte beyond the buffer is only counted.
  stored_full :
      buffer_size ≤ length sent
      → take (length (sent ++ x ∷ [])) bytes ≡ take buffer_size (sent ++ x ∷ [])
  stored_full full =
      rw
        (
          length-next,
          take-append_left buffer_size sent (x ∷ []) full,
          take_all (suc (length sent)) bytes (omega arith),
        )
        (sym (take_all (length sent) bytes (omega arith)) ∙ e)

accept_byte-IsFilling :
    (b : Buffers) (sent left : List ℕ) (x : ℕ)
    → IsFilling b sent (x ∷ left)
    → IsFilling (accept_byte x b) (sent ++ x ∷ []) left
unfolding accept_byte
accept_byte-IsFilling b sent left x v = record {
  open_round = v.open_round;
  unpublished = v.unpublished;
  running = v.running;
  room = ground (arith, v.room, length-set b.shared.bytes b.shared.received_bytes x);
  counted = omega (arith, v.counted, v.fits, next);
  wanted = omega (arith, v.wanted, next);
  fits = omega (arith, v.fits, next);
  stored = elim (dec_lt (length sent) buffer_size) [
    | yes below ↦
        rw (v.counted, lt→ltb (length sent) buffer_size below)
          (stored_below b.shared.bytes sent x v.room v.stored below)
    | no full ↦
        rw (v.counted, le→ltb (length sent) buffer_size (omega arith))
          (stored_full b.shared.bytes sent x v.room v.stored (omega arith))
  ];
}
  where
    next : length (sent ++ x ∷ []) ≡ suc (length sent)
    next = length-next b.shared.bytes sent x v.room v.stored

-- The state after the last byte of `total`, in a round begun in state `b`.
pub record IsPublished (total : List ℕ) (b b' : Buffers) : Type 0 where
  pub ready : b'.shared.data_ready ≡ true
  pub running : b'.shared.stopped ≡ false
  pub round : b'.shared.round_in_progress ≡ true
  pub next_generation : b'.shared.generation ≡ inc64 b.shared.generation
  pub mine : b'.own.write_generation ≡ b'.shared.generation
  pub size_kept : b'.shared.size ≡ b.shared.size
  pub completed_kept : b'.shared.completed_readers ≡ b.shared.completed_readers
  pub readers_kept : b'.shared.reader_count ≡ b.shared.reader_count
  pub room : length b'.shared.bytes ≡ buffer_size
  pub content : take (length total) b'.shared.bytes ≡ take buffer_size total

module _ (b : Buffers) (x : ℕ) (running : b.shared.stopped ≡ false)
    (round : b.shared.round_in_progress ≡ true) (unpublished : b.shared.data_ready ≡ false)
    (short : b.shared.received_bytes < b.shared.expected_bytes)
    (fits : b.shared.expected_bytes < 2 ^ 32) where
  write_last :
      b.shared.received_bytes + 1 ≡ b.shared.expected_bytes
      → write_shared_byte x b ≡ returned true (finish_writer_data (accept_byte x b))
  unfolding write_shared_byte
  write_last e = ground arith

  write_more :
      b.shared.received_bytes + 1 < b.shared.expected_bytes
      → write_shared_byte x b ≡ returned true (accept_byte x b)
  unfolding write_shared_byte
  write_more e = ground arith

filled-IsPublished :
    (b : Buffers) (total : List ℕ)
    → IsFilling b total []
    → IsPublished total b (finish_writer_data b)
unfolding finish_writer_data
filled-IsPublished b total v = record {
  ready = refl;
  running = v.running;
  round = v.open_round;
  next_generation = refl;
  mine = refl;
  size_kept = refl;
  completed_kept = refl;
  readers_kept = refl;
  room = v.room;
  content = v.stored;
}

accepted-IsPublished :
    (b b' : Buffers) (x : ℕ) (total : List ℕ)
    → IsPublished total (accept_byte x b) b'
    → IsPublished total b b'
unfolding accept_byte
accepted-IsPublished b b' x total p = record {
  ready = p.ready;
  running = p.running;
  round = p.round;
  next_generation = p.next_generation;
  mine = p.mine;
  size_kept = p.size_kept;
  completed_kept = p.completed_kept;
  readers_kept = p.readers_kept;
  room = p.room;
  content = p.content;
}

-- With bytes left to send, all are accepted and the last one publishes.
send-IsPublished :
    (b : Buffers) (sent : List ℕ) (x : ℕ) (left : List ℕ)
    → IsFilling b sent (x ∷ left)
    → (b' : Buffers) × (send (x ∷ left) b ≡ returned true b') × IsPublished (sent ++ x ∷ left) b b'
unfolding send
send-IsPublished b sent x [] v = (
  finish_writer_data (accept_byte x b),
  rw (
    write_last b x v.running v.open_round v.unpublished (omega (arith, v.wanted, v.counted))
        (omega (arith, v.wanted, v.fits)) (omega (arith, v.wanted, v.counted)),
    send,
  ),
  accepted-IsPublished b _ x _ (filled-IsPublished _ _ (accept_byte-IsFilling b sent [] x v)),
)
send-IsPublished b sent x (y ∷ left) v =
    let (b', e, p) =
      send-IsPublished (accept_byte x b) (sent ++ x ∷ []) y left
        (accept_byte-IsFilling b sent (y ∷ left) x v) in
    (
      b',
      rw
          (
            write_more b x v.running v.open_round v.unpublished (omega (arith, v.wanted, v.counted))
                (omega (arith, v.wanted, v.fits)) (omega (arith, v.wanted, v.counted)),
            send,
          )
          e,
      rw append_assoc at (accepted-IsPublished b b' x _ p),
    )

begin_writer_round-opens :
    (data_at n : ℕ) (b : Buffers)
    → b.shared.stopped ≡ false
    → b.shared.round_in_progress ≡ false
    → read_le 4 b.area data_at ≡ suc n
    → begin_writer_round data_at b ≡ returned true (open_round (suc n) b)
unfolding begin_writer_round
begin_writer_round-opens data_at n b running idle count = ground arith

-- The writer's part: the count, then the bytes.
unfoldable pub upload : ℕ → List ℕ → Buffers → Outcome
unfolding send
upload data_at xs b = elim (begin_writer_round data_at b) [
  | returned true b' ↦ send xs b'
  | other ↦ other
]

pub upload_lem :
    (data_at : ℕ) (xs : List ℕ) (b : Buffers)
    → b.shared.stopped ≡ false
    → b.shared.round_in_progress ≡ false
    → length b.shared.bytes ≡ buffer_size
    → read_le 4 b.area data_at ≡ length xs
    → length xs < 2 ^ 32
    → (b' : Buffers) × (upload data_at xs b ≡ returned true b')
      × IsPublished xs (open_round (length xs) b) b'
unfolding upload begin_writer_round
upload_lem data_at [] b running idle room count fits = (
  finish_writer_data (open_round 0 b),
  ground arith,
  filled-IsPublished (open_round 0 b) [] (ground arith),
)
upload_lem data_at (x ∷ xs) b running idle room count fits =
    let (b', e, p) = send-IsPublished (open_round (length (x ∷ xs)) b) [] x xs (ground arith) in
    (b', rw (begin_writer_round-opens data_at (length xs) b running idle count, upload) e, p)
