-- ===== src/Machine/Tests.antt =====
-- Runs of `vm_init` and `vm_destroy` on a small kernel, and the theorems there.
use kvm_hypervisor.Base.{◌≡◌, refl, true, ◌∷◌}
use kvm_hypervisor.Base.Int.{pos}
use kvm_hypervisor.Machine.{vm_init, vm_destroy}
use kvm_hypervisor.Machine.Kernel.{descriptor, mapping}
use kvm_hypervisor.Machine.Ledger.{vm_destroy-vm_init}
use kvm_hypervisor.Machine.TestKernel.{test_kernel, test_kernel-IsKernel, failing_at, account_of}

-- All calls succeed.
started : (vm_init test_kernel 0x20_0000 (failing_at 0)).0 ≡ true
unfolding vm_init
started = refl

held_when_started :
    (vm_init test_kernel 0x20_0000 (failing_at 0)).2.account.held
    ≡ mapping 0x10_0000 0x3000
      ∷ descriptor (pos 8)
      ∷ mapping 0x10_0000 0x20_0000
      ∷ descriptor (pos 5)
      ∷ descriptor (pos 3)
      ∷ (failing_at 0).account.held
unfolding vm_init
held_when_started = refl

-- The creation of the vCPU fails.
vm_destroy-vm_init_example :
    let (good, v, s1) = vm_init test_kernel 0x20_0000 (failing_at 8) in
    let (v2, s2) = vm_destroy test_kernel v s1 in
    (s2.account ≡ (failing_at 8).account) × (vm_destroy test_kernel v2 s2 ≡ (v2, s2))
vm_destroy-vm_init_example =
    vm_destroy-vm_init test_kernel account_of test_kernel-IsKernel 0x20_0000 (failing_at 8)
