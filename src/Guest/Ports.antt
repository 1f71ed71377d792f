-- ===== src/Guest/Ports.antt =====
-- guest/inc/io.h: the port accesses of the guest, over a state that holds its memory and all that its
-- accesses reach; and the addresses that the compiler gives to local variables and string literals.
use kvm_hypervisor.Base.{ℕ}
use kvm_hypervisor.Base.Memory.{Memory}

pub record Ports : Type 1 where
  pub State : Type 0
  pub mem : State → Memory
  pub set_mem : Memory → State → State
  pub outb : ℕ → ℕ → State → State
  pub outl : ℕ → ℕ → State → State
  pub inb : ℕ → State → State × ℕ
  pub inl : ℕ → State → State × ℕ
