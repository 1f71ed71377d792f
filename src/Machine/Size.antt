-- ===== src/Machine/Size.antt =====
-- host/src/vm.c, `vm_init`: the size that the struct keeps.
use kvm_hypervisor.Base.{ℕ, ◌≡◌, arith}
use kvm_hypervisor.Machine.{
  vm_init, check_version, create_vm, map_memory, register_memory, create_vcpu, get_run_size,
  map_run,
}
use kvm_hypervisor.Machine.Kernel.{KernelInterface}

module _ (K : KernelInterface) where
  -- Whatever becomes of the machine, the struct has the size it was given.
  pub vm_init-mem_size : (mem_size : ℕ) (s : K.State) → (vm_init K mem_size s).1.mem_size ≡ mem_size
  unfolding vm_init check_version create_vm map_memory register_memory create_vcpu get_run_size
      map_run
  vm_init-mem_size mem_size s = ground arith
