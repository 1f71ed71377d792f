-- ===== src/SharedBuffer/Schedule.antt =====
-- Concrete runs of the writer and the readers, as reachable states.
use mathlib.Core.Logic.{dite}
use native.Mathlib.Decide.{ℕ_discrete, dec_le}
use kvm_hypervisor.Base.{ℕ, zero, suc, ◌≤◌, ◌≡◌, refl, List, [], ◌∷◌}
use kvm_hypervisor.Base.Memory.{Memory}
use kvm_hypervisor.Protocol.{shared_buffer_status_port, vm_mode_reader}
use kvm_hypervisor.Exit.{Io, Direction, io_in, io_out}
use kvm_hypervisor.SharedBuffer.State.{Outcome, blocked, returned}
use kvm_hypervisor.SharedBuffer.{handle_shared_buffer_io}
use kvm_hypervisor.SharedBuffer.System.{
  System, initial_system, view, put_back, exit, Reach, start, next,
}

pub record Reached (readers : ℕ) : Type 0 where
  pub steps : ℕ
  pub last : System
  pub reach : Reach readers steps last

-- One exit of VM `i` with the I/O data at offset 0, if it is in order and not blocked.
pub record Request : Type 0 where
  pub vm : ℕ
  pub direction : Direction
  pub size : ℕ
  pub port : ℕ
  pub area : Memory

abbrev pub io_of : Request → Io
io_of q = record {
  direction = q.direction;
  size = q.size;
  port = q.port;
  count = 1;
  data_offset = 0;
}

module _ {n : ℕ} (r : Reached n) (q : Request) (le : q.vm ≤ n) where
  abbrev outcome : Outcome
  outcome = handle_shared_buffer_io (io_of q) 64 (view r.last q.vm q.area)

  followed :
      ((r.last.vms q.vm).mode ≡ vm_mode_reader
        → q.port ≡ shared_buffer_status_port
        → (r.last.vms q.vm).active_read_generation ≡ 0
        → ⊥)
      → (o : Outcome) → outcome ≡ o
      → Reached n
  followed order blocked e = r
  followed order (returned done b) e = record {
    steps = suc r.steps;
    last = put_back r.last q.vm b;
    reach = next r.reach (exit q.vm (io_of q) 64 q.area le e) order;
  }

unfoldable pub serve : {n : ℕ} → Reached n → Request → Reached n
unfolding followed dec_le ℕ_discrete
serve {n} r q =
    dite (dec_le q.vm n)
      (λ le.
        dite (ℕ_discrete q.port shared_buffer_status_port)
          (λ _.
            dite (ℕ_discrete (r.last.vms q.vm).active_read_generation 0) (λ _. r)
              (λ begun. followed r q le (λ _ _. begun) (outcome r q le) refl))
          (λ other. followed r q le (λ _ p _. other p) (outcome r q le) refl))
      (λ _. r)

unfoldable pub run : {n : ℕ} → Reached n → List Request → Reached n
unfolding serve
run r [] = r
run r (q ∷ qs) = run (serve r q) qs

abbrev pub at_start : (n : ℕ) → Reached n
at_start n = record { steps = 0; last = initial_system n; reach = start }

abbrev pub zeros : Memory
zeros _ = 0

abbrev pub word : ℕ → Memory
word v zero = v
word v (suc _) = 0

abbrev pub ask : ℕ → ℕ → ℕ → Request
ask vm size port = record { vm = vm; direction = io_in; size = size; port = port; area = zeros }

abbrev pub tell : ℕ → ℕ → ℕ → ℕ → Request
tell vm size port v = record {
  vm = vm;
  direction = io_out;
  size = size;
  port = port;
  area = word v;
}

-- The roles are handed out, the writer announces two bytes and sends them, and the reader begins.
abbrev pub under_way : List Request
under_way =
    ask 0 1 0x510
    ∷ ask 1 1 0x510
    ∷ tell 0 4 0x510 2
    ∷ tell 0 1 0x510 7
    ∷ tell 0 1 0x510 9
    ∷ ask 1 4 0x510
    ∷ []

-- It reads both bytes and acknowledges them.
abbrev pub to_the_end : List Request
to_the_end = ask 1 1 0x510 ∷ ask 1 1 0x510 ∷ tell 1 4 0x520 2 ∷ []
