-- ===== src/Exit.antt =====
-- What the handlers of host/src read of KVM's shared `struct kvm_run`: the reason of the last exit,
-- the I/O description, and the bytes of the mapping, in which I/O data stands at `data_offset`.
-- `linux/kvm.h` is not part of the repository, so its codes are constructors here.
-- The header fields and the data area are kept apart; KVM places the data behind the header.
use kvm_hypervisor.Base.{ℕ, Bool, true, false}
use kvm_hypervisor.Base.Memory.{Memory}

-- KVM_EXIT_IO_IN, KVM_EXIT_IO_OUT and any other byte.
pub data Direction : Type 0 where
  io_in io_out io_other : Direction

abbrev pub is_in : Direction → Bool
is_in io_in = true
is_in _ = false

abbrev pub is_out : Direction → Bool
is_out io_out = true
is_out _ = false

-- KVM_EXIT_IO, KVM_EXIT_IRQ_WINDOW_OPEN, KVM_EXIT_HLT, KVM_EXIT_SHUTDOWN, and the others by number.
pub data ExitReason : Type 0 where
  exit_io exit_irq_window_open exit_hlt exit_shutdown : ExitReason
  exit_other : ℕ → ExitReason

pub record Io : Type 0 where
  pub direction : Direction
  pub size : ℕ
  pub port : ℕ
  pub count : ℕ
  pub data_offset : ℕ

pub record KvmRun : Type 0 where
  pub exit_reason : ExitReason
  pub io : Io
  pub request_interrupt_window : Bool
  pub area : Memory
