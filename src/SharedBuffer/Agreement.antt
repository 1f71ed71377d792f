-- ===== src/SharedBuffer/Agreement.antt =====
-- host/src/shared_buffer.cpp: what the writer and the readers may rely on, in every state that the
-- VMs can reach while readers acknowledge only rounds that they began. README.md: "The writer does
-- not finish its round until all readers have acknowledged the same buffer generation."
use kvm_hypervisor.Base.{ℕ, suc, ◌+◌, ◌^◌, ◌≤◌, ◌<◌, ◌≡◌, refl, ◌≢◌, true, false, arith}
use kvm_hypervisor.Base.Memory.{Memory}
use kvm_hypervisor.Base.Family.{tally_full, tally-lt}
use kvm_hypervisor.Exit.{Io}
use kvm_hypervisor.SharedBuffer.State.{SharedBufferState, Buffers, returned}
use kvm_hypervisor.SharedBuffer.{
  give_mode, open_round, finish_writer_data, accept_byte, close_round, start_reading, take_byte,
  acknowledge, finish_writer_round, abort_shared_buffer,
}
use kvm_hypervisor.SharedBuffer.Moves.{Moves, handle_returned}
use kvm_hypervisor.SharedBuffer.System.{
  System, Step, exit, abort, Reach, start, next, view, initial_system, IsInOrder,
}
use kvm_hypervisor.SharedBuffer.Acknowledged.{has_acknowledged, IsCounted, counted-Moves}

Step-IsCounted :
    {n k : ℕ} {s t : System}
    → n < 2 ^ 64
    → k + 1 < 2 ^ 64
    → (st : Step n s t) → IsInOrder st
    → IsCounted n k s.shared s.vms
    → IsCounted n (suc k) t.shared t.vms
unfolding abort_shared_buffer
Step-IsCounted {n} {k} {s} fits few (exit i io mapping_size area hi e) order c =
    handle_returned _ io mapping_size (view s i area) (counted-Moves c few fits area i hi io order)
      e
Step-IsCounted fits few abort order c = record {
  generations = omega (arith, c.generations);
  ordered = c.ordered;
  tallied = ground (arith, c.tallied);
}

initial-IsCounted : (n : ℕ) → IsCounted n 0 (initial_system n).shared (initial_system n).vms
initial-IsCounted n = record {
  generations = omega arith;
  ordered = λ i. ground arith;
  tallied = ground arith;
}

pub Reach-IsCounted :
    {n k : ℕ} {s : System} → n < 2 ^ 64 → k < 2 ^ 64 → Reach n k s → IsCounted n k s.shared s.vms
Reach-IsCounted {n} fits few start = initial-IsCounted n
Reach-IsCounted fits few (next r st order) =
    Step-IsCounted fits (omega arith) st order (Reach-IsCounted fits (omega arith) r)

-- In every state that is reached while readers acknowledge only rounds that they began, in fewer than
-- 2^64 steps and with fewer than 2^64 readers, the writer's round ends well only when every reader
-- has acknowledged the current generation.
pub finish_writer_round-waits :
    {n k : ℕ} {s : System} {b : Buffers}
    → n < 2 ^ 64
    → k < 2 ^ 64
    → Reach n k s
    → (data_at : ℕ) (area : Memory) → finish_writer_round data_at (view s 0 area) ≡ returned true b
    → (i : ℕ) → 0 < i
    → i ≤ n
    → has_acknowledged s.shared.generation (s.vms i) ≡ true
unfolding finish_writer_round
finish_writer_round-waits {n} {s} fits few r data_at area e =
    tally_full (has_acknowledged s.shared.generation) n s.vms
      (ground (arith, (Reach-IsCounted fits few r).tallied))

-- VM `i` has begun to read the current generation and has not acknowledged it.
pub record IsReading (s : System) (i : ℕ) : Type 0 where
  pub begun : (s.vms i).active_read_generation ≡ s.shared.generation
  pub some_round : s.shared.generation ≢ 0
  pub unfinished : (s.vms i).read_completed ≡ false

-- While a reader is at work its round is open and published.
pub reading_published :
    {n k : ℕ} {s : System} (i : ℕ)
    → IsCounted n k s.shared s.vms
    → 0 < i
    → i ≤ n
    → IsReading s i
    → (s.shared.data_ready ≡ true) × (s.shared.round_in_progress ≡ true)
reading_published {n} {s} i c lo hi reading =
    ground (arith, c.tallied, tally-lt (has_acknowledged s.shared.generation) n s.vms i lo hi)

abbrev SameData : SharedBufferState → Buffers → Type 0
SameData s b =
    (b.shared.bytes ≡ s.bytes) × (b.shared.size ≡ s.size) × (b.shared.generation ≡ s.generation)

SameData-Moves :
    (b : Buffers) (io : Io)
    → b.shared.data_ready ≡ true
    → b.shared.round_in_progress ≡ true
    → Moves (SameData b.shared) io b
unfolding give_mode open_round finish_writer_data accept_byte close_round start_reading take_byte
    acknowledge
SameData-Moves b io ready round = record {
  refused = (refl, refl, refl);
  given = λ data_at. (refl, refl, refl);
  opened = λ data_at w idle p. cc;
  emptied = λ data_at w idle. cc;
  stored = λ value w r d l m. cc;
  published = λ value w r d l m. cc;
  closed = λ data_at w d g c. (refl, refl, refl);
  started = λ data_at r d l. (refl, refl, refl);
  taken = λ data_at r g l. (refl, refl, refl);
  done = λ r port c g o l. (refl, refl, refl);
}

-- In every state that is reached while readers acknowledge only rounds that they began, in fewer than
-- 2^64 steps and with fewer than 2^64 readers: while a reader has begun the current generation, which
-- is not 0, and has not acknowledged it, no exit of any VM and no abort changes the data, the size or
-- the generation that it reads.
pub Step-keeps_data :
    {n k : ℕ} {s t : System}
    → n < 2 ^ 64
    → k < 2 ^ 64
    → Reach n k s
    → (i : ℕ) → 0 < i
    → i ≤ n
    → IsReading s i
    → Step n s t
    → (t.shared.bytes ≡ s.shared.bytes)
      × (t.shared.size ≡ s.shared.size)
      × (t.shared.generation ≡ s.shared.generation)
unfolding abort_shared_buffer
Step-keeps_data fits few r i lo hi reading abort = (refl, refl, refl)
Step-keeps_data {s} fits few r i lo hi reading (exit j io mapping_size area le e) =
    handle_returned (SameData s.shared) io mapping_size (view s j area)
      (SameData-Moves (view s j area) io published.0 published.1) e
  where
    published : (s.shared.data_ready ≡ true) × (s.shared.round_in_progress ≡ true)
    published = reading_published i (Reach-IsCounted fits few r) lo hi reading
