-- ===== src/Machine/Ledger.antt =====
-- host/src/vm.c: the handles that a virtual machine holds, from `vm_init` to `vm_destroy`, by the
-- documented effect of the kernel's calls on the account of the process.
use kvm_hypervisor.Base.{ℕ, ◌≡◌, ◌∙◌, refl, arith, Bool, true, false, not, List, ◌∷◌, if◌then◌else◌}
use kvm_hypervisor.Base.Int.{ℤ, pos, negsuc, is_neg, magnitude}
use kvm_hypervisor.Machine.Kernel.{
  KernelInterface, IsKernel, Account, Handle, descriptor, mapping, same_int, map_failed,
}
use kvm_hypervisor.Machine.{
  Vm, no_handles, is_mapped, unmap, unmapped, close_fd, closed_fd, vm_destroy, vm_init,
  check_version, create_vm, map_memory, register_memory, create_vcpu, get_run_size, map_run,
  region_of,
}

abbrev pub hold_if : Bool → Handle → List Handle → List Handle
hold_if good h hs = if good then h ∷ hs else hs

-- The handles that the struct names, in front of those of the rest of the process.
abbrev pub handles : Vm → List Handle → List Handle
handles v rest = hold_if (is_mapped v.run) (mapping v.run (magnitude v.run_mmap_size)) (
    hold_if (not (is_neg v.vcpu_fd)) (descriptor v.vcpu_fd) (
      hold_if (is_mapped v.mem) (mapping v.mem v.mem_size) (
        hold_if (not (is_neg v.vm_fd)) (descriptor v.vm_fd)
          (hold_if (not (is_neg v.kvm_fd)) (descriptor v.kvm_fd) rest))))

same_int_refl : (a : ℤ) → same_int a a ≡ true
same_int_refl (pos n) = ground arith
same_int_refl (negsuc n) = ground arith

unmapped-is_mapped : (p : ℕ) → is_mapped (unmapped p) ≡ false
unmapped-is_mapped p = ground arith

closed_fd-is_neg : (fd : ℤ) → is_neg (closed_fd fd) ≡ true
closed_fd-is_neg (pos n) = refl
closed_fd-is_neg (negsuc n) = refl

-- A machine that names no handle is left alone.
vm_destroy-idle :
    (K : KernelInterface) (v : Vm) (s : K.State)
    → is_mapped v.run ≡ false
    → is_mapped v.mem ≡ false
    → is_neg v.vcpu_fd ≡ true
    → is_neg v.vm_fd ≡ true
    → is_neg v.kvm_fd ≡ true
    → vm_destroy K v s ≡ (v, s)
unfolding vm_destroy
vm_destroy-idle K v s run mem vcpu vm kvm = rw (run, mem, vcpu, vm, kvm) refl

-- A destroyed machine names no handle any more.
vm_destroy_twice :
    (K : KernelInterface) (v : Vm) (s : K.State)
    → let (v2, s2) = vm_destroy K v s in vm_destroy K v2 s2 ≡ (v2, s2)
unfolding vm_destroy
vm_destroy_twice K v s =
    vm_destroy-idle K (vm_destroy K v s).0 (vm_destroy K v s).1 (unmapped-is_mapped v.run)
      (unmapped-is_mapped v.mem) (closed_fd-is_neg v.vcpu_fd) (closed_fd-is_neg v.vm_fd)
      (closed_fd-is_neg v.kvm_fd)

module _ (K : KernelInterface) (account : K.State → Account) (L : IsKernel K account) where
  -- The kernel's account is what is left of the given one, with these handles.
  abbrev pub Holds : Account → List Handle → K.State → Type 0
  Holds a hs s = account s ≡ record a { held = hs }

  close_fd-Holds :
      (a : Account) (fd : ℤ) (hs : List Handle) (s : K.State)
      → Holds a (hold_if (not (is_neg fd)) (descriptor fd) hs) s
      → Holds a hs (close_fd K fd s)
  unfolding close_fd
  close_fd-Holds a fd hs s h = ground (arith, L.close_lem s fd, same_int_refl fd)

  unmap-Holds :
      (a : Account) (p n : ℕ) (hs : List Handle) (s : K.State)
      → Holds a (hold_if (is_mapped p) (mapping p n) hs) s
      → Holds a hs (unmap K p n s)
  unfolding unmap
  unmap-Holds a p n hs s h = ground (arith, L.munmap_lem s p n)

  unmap-Holds_behind :
      (a : Account) (b : Bool) (d : ℤ) (p n : ℕ) (hs : List Handle) (s : K.State)
      → Holds a (hold_if b (descriptor d) (hold_if (is_mapped p) (mapping p n) hs)) s
      → Holds a (hold_if b (descriptor d) hs) (unmap K p n s)
  unfolding unmap
  unmap-Holds_behind a b d p n hs s h = ground (arith, L.munmap_lem s p n)

  pub vm_destroy-Holds :
      (a : Account) (v : Vm) (hs : List Handle) (s : K.State)
      → Holds a (handles v hs) s
      → Holds a hs (vm_destroy K v s).1
  unfolding vm_destroy
  vm_destroy-Holds a v hs s h = close_fd-Holds a v.kvm_fd _ _ (
      close_fd-Holds a v.vm_fd _ _ (
        close_fd-Holds a v.vcpu_fd _ _ (
          unmap-Holds_behind a (not (is_neg v.vcpu_fd)) v.vcpu_fd v.mem v.mem_size _ _
            (unmap-Holds a v.run (magnitude v.run_mmap_size) _ s h))))

  -- After a step of `vm_init` the struct names what was acquired, whether the step failed or not.
  abbrev pub Named : Account → List Handle → Bool × Vm × K.State → Type 0
  Named a hs r = Holds a (handles r.1 hs) r.2

  map_run-Named :
      (a : Account) (hs : List Handle) (v : Vm) (s : K.State)
      → v.run ≡ map_failed
      → Holds a (handles v hs) s
      → Named a hs (map_run K v s)
  unfolding map_run
  map_run-Named a hs v s none h = ground (
    arith,
    L.mmap_run_lem s (magnitude v.run_mmap_size) v.vcpu_fd,
    L.mmap_run_not_null s (magnitude v.run_mmap_size) v.vcpu_fd,
  )

  get_run_size-Named :
      (a : Account) (hs : List Handle) (v : Vm) (s : K.State)
      → v.run ≡ map_failed
      → Holds a (handles v hs) s
      → Named a hs (get_run_size K v s)
  unfolding get_run_size
  get_run_size-Named a hs v s none h =
      let (s1, size) = K.get_vcpu_mmap_size s v.kvm_fd in
      let kept : Holds a (handles (record v { run_mmap_size = size }) hs) s1 =
        ground (arith, L.get_vcpu_mmap_size_lem s v.kvm_fd) in
      ground (arith, kept, map_run-Named a hs (record v { run_mmap_size = size }) s1 none kept)

  create_vcpu-Named :
      (a : Account) (hs : List Handle) (v : Vm) (s : K.State)
      → v.run ≡ map_failed
      → v.vcpu_fd ≡ negsuc 0
      → Holds a (handles v hs) s
      → Named a hs (create_vcpu K v s)
  unfolding create_vcpu
  create_vcpu-Named a hs v s none no_vcpu h =
      let (s1, fd) = K.create_vcpu s v.vm_fd in
      let named : Holds a (handles (record v { vcpu_fd = fd }) hs) s1 =
        ground (arith, L.create_vcpu_lem s v.vm_fd) in
      ground (arith, named, get_run_size-Named a hs (record v { vcpu_fd = fd }) s1 none named)

  register_memory-Named :
      (a : Account) (hs : List Handle) (v : Vm) (s : K.State)
      → v.run ≡ map_failed
      → v.vcpu_fd ≡ negsuc 0
      → Holds a (handles v hs) s
      → Named a hs (register_memory K v s)
  unfolding register_memory
  register_memory-Named a hs v s none no_vcpu h =
      let (s1, result) = K.set_user_memory_region s v.vm_fd (region_of v) in
      let kept = L.set_user_memory_region_lem s v.vm_fd (region_of v) ∙ h in
      ground (arith, kept, create_vcpu-Named a hs v s1 none no_vcpu kept)

  map_memory-Named :
      (a : Account) (hs : List Handle) (v : Vm) (s : K.State)
      → v.run ≡ map_failed
      → v.vcpu_fd ≡ negsuc 0
      → v.mem ≡ map_failed
      → Holds a (handles v hs) s
      → Named a hs (map_memory K v s)
  unfolding map_memory
  map_memory-Named a hs v s none no_vcpu no_mem h =
      let (s1, mem) = K.mmap_memory s v.mem_size in
      let named : Holds a (handles (record v { mem = mem }) hs) s1 =
        ground (arith, L.mmap_memory_lem s v.mem_size, L.mmap_memory_not_null s v.mem_size) in
      ground
        (arith, named, register_memory-Named a hs (record v { mem = mem }) s1 none no_vcpu named)

  create_vm-Named :
      (a : Account) (hs : List Handle) (v : Vm) (s : K.State)
      → v.run ≡ map_failed
      → v.vcpu_fd ≡ negsuc 0
      → v.mem ≡ map_failed
      → v.vm_fd ≡ negsuc 0
      → Holds a (handles v hs) s
      → Named a hs (create_vm K v s)
  unfolding create_vm
  create_vm-Named a hs v s none no_vcpu no_mem no_vm h =
      let (s1, fd) = K.create_vm s v.kvm_fd in
      let named : Holds a (handles (record v { vm_fd = fd }) hs) s1 =
        ground (arith, L.create_vm_lem s v.kvm_fd) in
      ground
        (arith, named, map_memory-Named a hs (record v { vm_fd = fd }) s1 none no_vcpu no_mem named)

  check_version-Named :
      (a : Account) (hs : List Handle) (v : Vm) (s : K.State)
      → v.run ≡ map_failed
      → v.vcpu_fd ≡ negsuc 0
      → v.mem ≡ map_failed
      → v.vm_fd ≡ negsuc 0
      → Holds a (handles v hs) s
      → Named a hs (check_version K v s)
  unfolding check_version
  check_version-Named a hs v s none no_vcpu no_mem no_vm h =
      let (s1, api) = K.get_api_version s v.kvm_fd in
      let kept = L.get_api_version_lem s v.kvm_fd ∙ h in
      ground (arith, kept, create_vm-Named a hs v s1 none no_vcpu no_mem no_vm kept)

  -- Whether `vm_init` succeeds or not, the struct names exactly the handles that it acquired.
  pub vm_init-Named :
      (mem_size : ℕ) (s : K.State) → Named (account s) (account s).held (vm_init K mem_size s)
  unfolding vm_init
  vm_init-Named mem_size s =
      let a = account s in
      let (s1, fd) = K.open_kvm s in
      let v1 = record (no_handles mem_size) { kvm_fd = fd } in
      let named : Holds a (handles v1 a.held) s1 = ground (arith, L.open_kvm_lem s) in
      ground (arith, named, check_version-Named a a.held v1 s1 refl refl refl refl named)

  -- After `vm_init`, whether it succeeded or at whichever step it failed, `vm_destroy` gives back every
  -- handle that was acquired and nothing that was not held, so that the account of the process is as
  -- before; and a second `vm_destroy` does nothing. This rests on the documented effect of the kernel's
  -- calls on what the process holds.
  pub vm_destroy-vm_init :
      (mem_size : ℕ) (s : K.State)
      → let (good, v, s1) = vm_init K mem_size s in
        let (v2, s2) = vm_destroy K v s1 in
        (account s2 ≡ account s) × (vm_destroy K v2 s2 ≡ (v2, s2))
  vm_destroy-vm_init mem_size s =
      let (good, v, s1) = vm_init K mem_size s in
      (
        vm_destroy-Holds (account s) v (account s).held s1 (vm_init-Named mem_size s),
        vm_destroy_twice K v s1,
      )
