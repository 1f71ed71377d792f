-- ===== src/Guest/Irqs.antt =====
-- guest/src/interrupts.c: what an interrupt makes of the guest's static variables.
use kvm_hypervisor.Base.{◌≡◌, arith}
use kvm_hypervisor.Guest.Ports.{Ports}
use kvm_hypervisor.Guest.Interrupts.{Layout, Statics, irq0_handler}

module _ (P : Ports) (L : Layout) where
  pub irq0_handler-first :
      (g : Statics) (s : P.State)
      → g.mode_initialized ≡ 0
      → ((irq0_handler P L g s).0.mode_initialized ≡ 1)
        × ((irq0_handler P L g s).0.transfer_finished ≡ g.transfer_finished)
  unfolding irq0_handler
  irq0_handler-first g s e = (ground arith, ground arith)

  pub irq0_handler-later :
      (g : Statics) (s : P.State)
      → g.mode_initialized ≡ 1
      → ((irq0_handler P L g s).0.mode_initialized ≡ 1)
        × ((irq0_handler P L g s).0.transfer_finished ≡ 1)
  unfolding irq0_handler
  irq0_handler-later g s e = (ground arith, ground arith)
