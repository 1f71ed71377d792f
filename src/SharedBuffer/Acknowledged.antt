-- ===== src/SharedBuffer/Acknowledged.antt =====
-- host/src/shared_buffer.cpp: `completedReaders` counts the readers that have acknowledged the
-- current generation, as long as readers acknowledge only rounds that they began.
use kvm_hypervisor.Base.{
  ℕ, suc, ◌+◌, ◌^◌, ◌≤◌, ◌<◌, ◌≡◌, refl, ◌≢◌, Bool, true, false, ◌&&◌, ◌==◌, arith,
}
use kvm_hypervisor.Base.Memory.{Memory, read_le}
use kvm_hypervisor.Base.Family.{
  bit, update, tally, tally-update, tally-update_zero, tally-le, tally-eq-zero,
}
use kvm_hypervisor.Protocol.{vm_mode_reader, shared_buffer_status_port}
use kvm_hypervisor.Exit.{Io}
use kvm_hypervisor.SharedBuffer.State.{SharedBufferState, SharedBufferVmState, Buffers}
use kvm_hypervisor.SharedBuffer.{
  give_mode, open_round, finish_writer_data, accept_byte, close_round, start_reading, take_byte,
  acknowledge,
}
use kvm_hypervisor.SharedBuffer.Moves.{Moves}
use kvm_hypervisor.SharedBuffer.System.{mode_of}

abbrev pub has_acknowledged : ℕ → SharedBufferVmState → Bool
has_acknowledged generation v = v.read_completed && v.last_read_generation == generation

abbrev pub acknowledged : ℕ → ℕ → (ℕ → SharedBufferVmState) → ℕ
acknowledged readers generation f = tally (has_acknowledged generation) readers f

-- What holds of the state of one VM.
pub record IsOrdered (generation i : ℕ) (v : SharedBufferVmState) : Type 0 where
  pub role : v.mode ≡ mode_of i
  pub last_le : v.last_read_generation ≤ v.active_read_generation
  pub active_le : v.active_read_generation ≤ generation
  pub pending :
      v.read_completed ≡ false
      → v.active_read_generation ≢ 0
      → v.last_read_generation < v.active_read_generation

-- What holds of the shared state, with the number of acknowledgements of its generation.
pub record IsTallied (n count : ℕ) (s : SharedBufferState) : Type 0 where
  pub readers : s.reader_count ≡ n
  pub ready_counted : s.data_ready ≡ true → s.completed_readers ≡ count
  pub all_done : s.data_ready ≡ true → s.round_in_progress ≡ false → count ≡ n
  pub filling : s.data_ready ≡ false → s.generation ≢ 0 → count ≡ n
  pub filling_none : s.data_ready ≡ false → s.round_in_progress ≡ true → s.completed_readers ≡ 0
  pub first_round : s.data_ready ≡ false → s.round_in_progress ≡ false → s.generation ≡ 0

pub record IsCounted (n k : ℕ) (s : SharedBufferState) (f : ℕ → SharedBufferVmState) : Type 0 where
  pub generations : s.generation ≤ k
  pub ordered : (i : ℕ) → IsOrdered s.generation i (f i)
  pub tallied : IsTallied n (acknowledged n s.generation f) s

ruleset counting = (arith, tally-update, tally-update_zero, tally-le)

module _ {n k : ℕ} {s : SharedBufferState} {f : ℕ → SharedBufferVmState} (c : IsCounted n k s f)
    (few : k + 1 < 2 ^ 64) (n_fits : n < 2 ^ 64) (area : Memory) (i : ℕ) (hi : i ≤ n) where
  abbrev here : Buffers
  here = record { shared = s; own = f i; area = area }

  abbrev Keeps : Buffers → Type 0
  Keeps b = IsCounted n (suc k) b.shared (update f i b.own)

  -- It is enough to look at VM `i` and at the tally.
  keep :
      (b : Buffers)
      → s.generation ≤ b.shared.generation
      → b.shared.generation ≤ suc k
      → IsOrdered b.shared.generation i b.own
      → ((count : ℕ)
          → count ≡ acknowledged n b.shared.generation (update f i b.own)
          → IsTallied n count b.shared)
      → Keeps b
  keep b up top o t = record {
    generations = top;
    ordered = λ j. ground (arith, c.ordered j);
    tallied = t _ refl;
  }

  abbrev old : ℕ
  old = acknowledged n s.generation f

  -- No reader has acknowledged a generation that is only now published.
  acknowledged_new :
      (v : SharedBufferVmState) (g : ℕ)
      → s.generation < g
      → v.last_read_generation < g
      → acknowledged n g (update f i v) ≡ 0
  acknowledged_new v g up own =
      tally-eq-zero (has_acknowledged g) n (update f i v) λ j lo hi. ground (arith, c.ordered j)

  -- How the tally changes with the state of VM `i`; the writer's is not in it.
  change :
      (v : SharedBufferVmState)
      → (i ≡ 0 → acknowledged n s.generation (update f i v) ≡ old)
        × (0 < i
            → acknowledged n s.generation (update f i v) + bit (has_acknowledged s.generation (f i))
              ≡ old + bit (has_acknowledged s.generation v))
  change v = (
    λ e. rw e (tally-update_zero (has_acknowledged s.generation) n f v),
    λ lo. tally-update (has_acknowledged s.generation) n f i v lo hi,
  )

  -- A publication starts a generation that nobody has acknowledged.
  publish :
      (b : Buffers)
      → b.shared.generation ≡ s.generation
      → IsOrdered s.generation i b.own
      → b.shared.reader_count ≡ n
      → b.shared.completed_readers ≡ 0
      → b.shared.round_in_progress ≡ true
      → Keeps (finish_writer_data b)
  unfolding finish_writer_data
  publish b g o readers fresh round =
      keep (finish_writer_data b) (omega (arith, c.generations)) (omega (arith, c.generations))
        (ground (arith, c.generations))
        (λ count e.
          ground
            (arith, c.generations, acknowledged_new (finish_writer_data b).own (suc s.generation)))

  pub counted-Moves :
      (io : Io)
      → ((f i).mode ≡ vm_mode_reader
          → io.port ≡ shared_buffer_status_port
          → (f i).active_read_generation ≢ 0)
      → Moves Keeps io here
  unfolding give_mode open_round finish_writer_data accept_byte close_round start_reading take_byte
      acknowledge
  counted-Moves io in_order = record {
    refused = keep here (omega arith) (omega (arith, c.generations)) (c.ordered i) (λ count e.
        ground (
          arith,
          c.tallied,
          tally-update (has_acknowledged s.generation) n f i (f i),
          tally-update_zero (has_acknowledged s.generation) n f (f i),
        ));
    given = λ data_at.
        keep (give_mode data_at here) (omega arith) (omega (arith, c.generations))
          (ground (arith, c.ordered i))
          (λ count e. ground (arith, c.tallied, change (give_mode data_at here).own));
    opened = λ data_at w r p.
        keep (open_round (read_le 4 area data_at) here) (omega arith) (omega (arith, c.generations))
          (ground (arith, c.ordered i))
          (λ count e.
            ground (
              arith,
              c.tallied,
              c.ordered i,
              change (open_round (read_le 4 area data_at) here).own,
            ));
    emptied = λ data_at w r.
        publish (open_round 0 here) refl (ground (arith, c.ordered i)) (ground (arith, c.tallied))
          (ground (arith, c.tallied)) (ground (arith, c.tallied));
    stored = λ value w r d l m.
        keep (accept_byte value here) (omega arith) (omega (arith, c.generations)) (c.ordered i)
          (λ count e. ground (arith, c.tallied, change (f i)));
    published = λ value w r d l m.
        publish (accept_byte value here) refl (ground (arith, c.ordered i))
          (ground (arith, c.tallied)) (ground (arith, c.tallied)) (ground (arith, c.tallied));
    closed = λ data_at w d g cr.
        keep (close_round data_at here) (omega arith) (omega (arith, c.generations))
          (ground (arith, c.ordered i))
          (λ count e.
            ground (arith, c.tallied, c.ordered i, change (close_round data_at here).own));
    started = λ data_at r d l.
        keep (start_reading data_at here) (omega arith) (omega (arith, c.generations))
          (ground (arith, c.ordered i))
          (λ count e.
            ground (arith, c.tallied, c.ordered i, change (start_reading data_at here).own));
    taken = λ data_at r g l.
        keep (take_byte data_at here) (omega arith) (omega (arith, c.generations))
          (ground (arith, c.ordered i))
          (λ count e. ground (arith, c.tallied, c.ordered i, change (take_byte data_at here).own));
    done = λ r port rc g o l.
        keep (acknowledge here) (omega arith) (omega (arith, c.generations))
          (ground (arith, c.ordered i))
          (λ count e. ground (
            arith,
            c.tallied,
            c.ordered i,
            change (acknowledge here).own,
            tally-le (has_acknowledged s.generation) n (update f i (acknowledge here).own),
          ));
  }
