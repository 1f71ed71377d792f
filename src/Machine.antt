-- ===== src/Machine.antt =====
-- host/src/vm.c, `vm_init`, `vm_destroy` and `inject_irq`: the handles of one virtual machine. Values
-- of type `int` are integers, pointers are numbers. The kernel is a parameter (Machine/Kernel).
pub mod Kernel
pub mod Ledger
pub mod Size
pub mod TestKernel
mod Tests
use kvm_hypervisor.Base.{ℕ, ◌-◌, ◌^◌, Bool, true, false, not, ◌&&◌, ◌||◌, ◌==◌, if◌then◌else◌}
use kvm_hypervisor.Base.Int.{ℤ, pos, negsuc, is_neg, magnitude}
use kvm_hypervisor.Machine.Kernel.{KernelInterface, Region, map_failed, kvm_api_version}

pub record Vm : Type 0 where
  pub kvm_fd : ℤ
  pub vm_fd : ℤ
  pub vcpu_fd : ℤ
  pub mem : ℕ
  pub mem_size : ℕ
  pub run : ℕ
  pub run_mmap_size : ℤ

-- `memset` and the assignments after it.
abbrev pub no_handles : ℕ → Vm
no_handles mem_size = record {
  kvm_fd = negsuc 0;
  vm_fd = negsuc 0;
  vcpu_fd = negsuc 0;
  mem = map_failed;
  mem_size = mem_size;
  run = map_failed;
  run_mmap_size = pos 0;
}

-- A pointer that is neither null nor MAP_FAILED.
abbrev pub is_mapped : ℕ → Bool
is_mapped p = not (p == 0) && not (p == map_failed)

abbrev pub unmapped : ℕ → ℕ
unmapped p = if is_mapped p then map_failed else p

abbrev pub closed_fd : ℤ → ℤ
closed_fd fd = if is_neg fd then fd else negsuc 0

-- KVM_GET_VCPU_MMAP_SIZE wants a positive size.
abbrev pub is_positive : ℤ → Bool
is_positive (pos n) = not (n == 0)
is_positive (negsuc n) = false

abbrev pub region_of : Vm → Region
region_of v = record {
  slot = 0;
  flags = 0;
  guest_phys_addr = 0;
  memory_size = v.mem_size;
  userspace_addr = v.mem;
}

module _ (K : KernelInterface) where
  -- The steps of `vm_init`, each with those after it. The result is what the function returns (true
  -- for 0), with the struct and the kernel that it leaves.
  abbrev pub Started : Type 0
  Started = Bool × Vm × K.State

  pub map_run : Vm → K.State → Started
  map_run v s =
      let (s1, run) = K.mmap_run s (magnitude v.run_mmap_size) v.vcpu_fd in
      let v1 = record v { run = run } in
      if run == map_failed then (false, v1, s1) else (true, v1, s1)

  pub get_run_size : Vm → K.State → Started
  unfolding map_run
  get_run_size v s =
      let (s1, size) = K.get_vcpu_mmap_size s v.kvm_fd in
      let v1 = record v { run_mmap_size = size } in
      if not (is_positive size) then (false, v1, s1) else map_run v1 s1

  pub create_vcpu : Vm → K.State → Started
  unfolding get_run_size
  create_vcpu v s =
      let (s1, fd) = K.create_vcpu s v.vm_fd in
      let v1 = record v { vcpu_fd = fd } in
      if is_neg fd then (false, v1, s1) else get_run_size v1 s1

  pub register_memory : Vm → K.State → Started
  unfolding create_vcpu
  register_memory v s =
      let (s1, result) = K.set_user_memory_region s v.vm_fd (region_of v) in
      if is_neg result then (false, v, s1) else create_vcpu v s1

  pub map_memory : Vm → K.State → Started
  unfolding register_memory
  map_memory v s =
      let (s1, mem) = K.mmap_memory s v.mem_size in
      let v1 = record v { mem = mem } in
      if mem == map_failed then (false, v1, s1) else register_memory v1 s1

  pub create_vm : Vm → K.State → Started
  unfolding map_memory
  create_vm v s =
      let (s1, fd) = K.create_vm s v.kvm_fd in
      let v1 = record v { vm_fd = fd } in if is_neg fd then (false, v1, s1) else map_memory v1 s1

  abbrev pub is_api : ℤ → Bool
  is_api (pos n) = n == kvm_api_version
  is_api (negsuc n) = false

  pub check_version : Vm → K.State → Started
  unfolding create_vm
  check_version v s =
      let (s1, api) = K.get_api_version s v.kvm_fd in
      if not (is_api api) then (false, v, s1) else create_vm v s1

  unfoldable pub vm_init : ℕ → K.State → Started
  unfolding check_version
  vm_init mem_size s =
      let (s1, fd) = K.open_kvm s in
      let v1 = record (no_handles mem_size) { kvm_fd = fd } in
      if is_neg fd then (false, v1, s1) else check_version v1 s1

  pub unmap : ℕ → ℕ → K.State → K.State
  unmap p size s = if is_mapped p then K.munmap s p size else s

  pub close_fd : ℤ → K.State → K.State
  close_fd fd s = if is_neg fd then s else K.close s fd

  unfoldable pub vm_destroy : Vm → K.State → Vm × K.State
  unfolding unmap close_fd
  vm_destroy v s = (
    record v {
      run = unmapped v.run;
      mem = unmapped v.mem;
      vcpu_fd = closed_fd v.vcpu_fd;
      vm_fd = closed_fd v.vm_fd;
      kvm_fd = closed_fd v.kvm_fd;
    },
    close_fd v.kvm_fd (
        close_fd v.vm_fd (
          close_fd v.vcpu_fd (unmap v.mem v.mem_size (unmap v.run (magnitude v.run_mmap_size) s)))),
  )

  -- True where the C function returns 0.
  unfoldable pub inject_irq : Vm → ℕ → K.State → K.State × Bool
  inject_irq v vector s =
      let (s1, result) = K.interrupt s v.vcpu_fd vector in (s1, not (is_neg result))
