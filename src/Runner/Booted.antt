-- ===== src/Runner/Booted.antt =====
-- host/src/vm_runner.cpp, `runVirtualMachine` up to its loop: what the process holds at its end.
use kvm_hypervisor.Base.{ℕ, ◌≡◌, arith, false}
use kvm_hypervisor.FileIo.Host.{Host}
use kvm_hypervisor.LongMode.{Sregs, setup_long_mode, guest_start_addr}
use kvm_hypervisor.Startup.{ImageFile, load_guest_image}
use kvm_hypervisor.Machine.{vm_init}
use kvm_hypervisor.Machine.Kernel.{KernelInterface, IsKernel, Regs, Account}
use kvm_hypervisor.Machine.Ledger.{handles, vm_init-Named}
use kvm_hypervisor.Runner.State.{Thread}
use kvm_hypervisor.Runner.{fresh, set_registers, load_image, set_long_mode, get_registers, boot}
use kvm_hypervisor.Runner.Handles.{Runs, Kept, stop-Kept, same-account}

module _ (H : Host) (K : KernelInterface) (account : K.State → Account) (L : IsKernel K account)
    (a : Account) where
  set_registers-Kept :
      (t : Thread H K) → Runs H K account L a t → Kept H K account L a (set_registers H K t)
  unfolding set_registers
  set_registers-Kept t h =
      let r : Regs = record { rflags = 2; rip = guest_start_addr; rsp = t.vm.mem_size } in
      let (s, result) = K.set_regs t.kernel t.vm.vcpu_fd r in
      let t1 = record t { kernel = s } in
      let kept : Runs H K account L a t1 =
        same-account H K account L a (handles t.vm a.held) t.kernel s t.interrupt_count
          (L.set_regs_lem t.kernel t.vm.vcpu_fd r) h in
      ground (arith, kept, stop-Kept H K account L a false t1 kept)

  load_image-Kept :
      (image : ImageFile) (t : Thread H K)
      → Runs H K account L a t
      → Kept H K account L a (load_image H K image t)
  unfolding load_image
  load_image-Kept image t h =
      let (mem, loaded) = load_guest_image image t.vm.mem_size guest_start_addr t.world.mem in
      let t1 = record t { world = record t.world { mem = mem } } in
      ground (arith, stop-Kept H K account L a false t1 h, set_registers-Kept t1 h)

  set_long_mode-Kept :
      (image : ImageFile) (page_size : ℕ) (sregs : Sregs) (t : Thread H K)
      → Runs H K account L a t
      → Kept H K account L a (set_long_mode H K image page_size sregs t)
  unfolding set_long_mode
  set_long_mode-Kept image page_size sregs t h =
      let (mem, sregs1) = setup_long_mode t.vm.mem_size page_size t.world.mem sregs in
      let (s, result) = K.set_sregs t.kernel t.vm.vcpu_fd sregs1 in
      let t1 = record t { kernel = s; world = record t.world { mem = mem } } in
      let kept : Runs H K account L a t1 =
        same-account H K account L a (handles t.vm a.held) t.kernel s t.interrupt_count
          (L.set_sregs_lem t.kernel t.vm.vcpu_fd sregs1) h in
      ground (arith, stop-Kept H K account L a false t1 kept, load_image-Kept image t1 kept)

  get_registers-Kept :
      (image : ImageFile) (page_size : ℕ) (t : Thread H K)
      → Runs H K account L a t
      → Kept H K account L a (get_registers H K image page_size t)
  unfolding get_registers
  get_registers-Kept image page_size t h =
      let (s, result, sregs) = K.get_sregs t.kernel t.vm.vcpu_fd in
      let t1 = record t { kernel = s } in
      let kept : Runs H K account L a t1 =
        same-account H K account L a (handles t.vm a.held) t.kernel s t.interrupt_count
          (L.get_sregs_lem t.kernel t.vm.vcpu_fd) h in
      ground (
        arith,
        stop-Kept H K account L a false t1 kept,
        set_long_mode-Kept image page_size sregs t1 kept,
      )

  pub boot-Kept :
      (image : ImageFile) (memory_size page_size : ℕ) (t : Thread H K)
      → account t.kernel ≡ a
      → Kept H K account L a (boot H K image memory_size page_size t)
  unfolding boot
  boot-Kept image memory_size page_size t h =
      let (good, vm, s) = vm_init K memory_size t.kernel in
      let t1 = record (fresh H K memory_size t) { vm = vm; kernel = s } in
      let named = vm_init-Named K account L memory_size t.kernel in
      let kept : Runs H K account L a t1 = (ground (arith, named), ground (arith, named)) in
      ground
        (arith, stop-Kept H K account L a false t1 kept, get_registers-Kept image page_size t1 kept)
