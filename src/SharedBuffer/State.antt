-- ===== src/SharedBuffer/State.antt =====
-- host/inc/shared_buffer.hpp: the state of the shared buffer and the part that each VM keeps of it,
-- and what a call of host/src/shared_buffer.cpp works on and how it ends.
use kvm_hypervisor.Base.{ℕ, Bool, false, List, replicate}
use kvm_hypervisor.Base.Memory.{Memory}
use kvm_hypervisor.Protocol.{buffer_size}

pub record SharedBufferState : Type 0 where
  pub bytes : List ℕ
  pub size : ℕ
  pub expected_bytes : ℕ
  pub received_bytes : ℕ
  pub reader_count : ℕ
  pub completed_readers : ℕ
  pub generation : ℕ
  pub data_ready : Bool
  pub round_in_progress : Bool
  pub stopped : Bool

pub record SharedBufferVmState : Type 0 where
  pub mode : ℕ
  pub read_offset : ℕ
  pub last_read_generation : ℕ
  pub active_read_generation : ℕ
  pub write_generation : ℕ
  pub mode_delivered : Bool
  pub read_completed : Bool
  pub transfer_completed : Bool

-- The default member initialisers; `main` sets the number of readers and the modes.
abbrev pub initial_state : ℕ → SharedBufferState
initial_state reader_count = record {
  bytes = replicate buffer_size 0;
  size = 0;
  expected_bytes = 0;
  received_bytes = 0;
  reader_count = reader_count;
  completed_readers = 0;
  generation = 0;
  data_ready = false;
  round_in_progress = false;
  stopped = false;
}

abbrev pub initial_vm_state : ℕ → SharedBufferVmState
initial_vm_state mode = record {
  mode = mode;
  read_offset = 0;
  last_read_generation = 0;
  active_read_generation = 0;
  write_generation = 0;
  mode_delivered = false;
  read_completed = false;
  transfer_completed = false;
}

-- What a call can change: the shared state, the state of the calling VM, and the bytes of the
-- mapping of its `kvm_run`.
pub record Buffers : Type 0 where
  pub shared : SharedBufferState
  pub own : SharedBufferVmState
  pub area : Memory

pub data Outcome : Type 0 where
  blocked : Outcome
  returned : Bool → Buffers → Outcome
