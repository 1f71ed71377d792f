-- ===== src/SharedBuffer/System.antt =====
-- One writer VM and its readers (host/src/main.cpp makes them, host/src/vm_runner.cpp runs each on
-- its own thread) around one shared buffer. A step is one I/O exit of one VM that is served to its
-- end, with whatever the guest put there, or an abort; threads interleave as sequences of steps.
use kvm_hypervisor.Base.{ℕ, suc, ◌≤◌, ◌≡◌, ◌≢◌, Bool, ◌==◌, if◌then◌else◌}
use kvm_hypervisor.Base.Memory.{Memory}
use kvm_hypervisor.Base.Family.{update}
use kvm_hypervisor.Protocol.{vm_mode_reader, vm_mode_writer, shared_buffer_status_port}
use kvm_hypervisor.Exit.{Io}
use kvm_hypervisor.SharedBuffer.State.{
  SharedBufferState, SharedBufferVmState, Buffers, returned, initial_state, initial_vm_state,
}
use kvm_hypervisor.SharedBuffer.{handle_shared_buffer_io, abort_shared_buffer}

pub record System : Type 0 where
  pub shared : SharedBufferState
  pub vms : ℕ → SharedBufferVmState

-- The first VM is the writer.
abbrev pub mode_of : ℕ → ℕ
mode_of i = if i == 0 then vm_mode_writer else vm_mode_reader

-- What `main` sets up for a writer and `readers` readers.
abbrev pub initial_system : ℕ → System
initial_system readers = record {
  shared = initial_state readers;
  vms = λ i. initial_vm_state (mode_of i);
}

abbrev pub view : System → ℕ → Memory → Buffers
view s i area = record { shared = s.shared; own = s.vms i; area = area }

abbrev pub put_back : System → ℕ → Buffers → System
put_back s i b = record { shared = b.shared; vms = update s.vms i b.own }

pub data Step (readers : ℕ) (s : System) : System → Type 0 where
  exit :
      (i : ℕ) (io : Io) (mapping_size : ℕ) (area : Memory) {done : Bool} {b : Buffers}
      → i ≤ readers
      → handle_shared_buffer_io io mapping_size (view s i area) ≡ returned done b
      → Step readers s (put_back s i b)
  abort : Step readers s (record s { shared = abort_shared_buffer s.shared })

-- A reader that sends an acknowledgement has begun some round before.
abbrev pub IsInOrder : {readers : ℕ} {s t : System} → Step readers s t → Type 0
IsInOrder {s} (exit i io _ _ _ _) =
    (s.vms i).mode ≡ vm_mode_reader
    → io.port ≡ shared_buffer_status_port
    → (s.vms i).active_read_generation ≢ 0
IsInOrder abort = Unit

-- The states after `k` steps in which readers acknowledge in order.
pub data Reach (readers : ℕ) : ℕ → System → Type 0 where
  start : Reach readers 0 (initial_system readers)
  next :
      {k : ℕ} {s t : System}
      → Reach readers k s
      → (st : Step readers s t) → IsInOrder st
      → Reach readers (suc k) t
