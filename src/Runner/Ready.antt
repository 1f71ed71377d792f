-- ===== src/Runner/Ready.antt =====
-- host/src/vm_runner.cpp, `runVirtualMachine` up to its loop, with `setup_long_mode` and
-- `load_guest_image` of host/src/vm.c: what a guest finds when its processor first runs.
use Prim.Native.String.{String}
use kvm_hypervisor.Base.{ℕ, ◌*◌, ◌%◌, ◌≤◌, ◌<◌, ◌≡◌, refl, sym, subst, arith, true, some, List, ltb}
use kvm_hypervisor.LongMode.{
  Sregs, setup_long_mode, setup_segments_64, guest_start_addr, pml4_addr, page_size_2m,
}
use kvm_hypervisor.LongMode.Walk.{translate}
use kvm_hypervisor.LongMode.Kept.{translate-Agrees}
use kvm_hypervisor.Cli.{CliResult, ok, parse_arguments}
use kvm_hypervisor.Cli.Accepted.{parse_arguments-IsAccepted}
use kvm_hypervisor.Startup.{ImageFile, load_guest_image}
use kvm_hypervisor.Startup.Loaded.{HasImage, load_guest_image-HasImage, load_guest_image-below}
use kvm_hypervisor.FileIo.Host.{Host}
use kvm_hypervisor.Machine.{vm_init}
use kvm_hypervisor.Machine.Size.{vm_init-mem_size}
use kvm_hypervisor.Machine.Kernel.{KernelInterface}
use kvm_hypervisor.Runner.State.{Thread, running}
use kvm_hypervisor.Runner.{
  fresh, stop, set_registers, load_image, set_long_mode, get_registers, boot, irq_count,
}

-- What the guest finds. Its processor translates every address of its memory to itself, its image
-- stands where it starts, the last calls to the kernel turned paging on and set the registers, and
-- two interrupts are due.
pub record IsReady (H : Host) (K : KernelInterface) (image : ImageFile) (memory_size : ℕ)
    (t : Thread H K) : Type 0 where
  pub identity : (va : ℕ) → va < memory_size → translate t.world.mem pml4_addr va ≡ some va
  pub loaded : HasImage image memory_size guest_start_addr t.world.mem
  pub entered :
      (s : K.State) × (sregs : Sregs) × (sregs.cr3 ≡ pml4_addr)
      × (sregs.cr0 ≡ 0x8000_0001)
      × (sregs.cr4 ≡ 0x20)
      × (sregs.efer ≡ 0x500)
      × (t.kernel
          ≡ (K.set_regs
              (K.set_sregs s t.vm.vcpu_fd sregs).0
              t.vm.vcpu_fd
              (record { rflags = 2; rip = guest_start_addr; rsp = memory_size })).0)
  pub due : t.interrupt_count ≡ irq_count
  pub window : t.request_interrupt_window ≡ true

module _ (H : Host) (K : KernelInterface) where
  -- The thread behind each step that succeeds.
  abbrev with_registers : Thread H K → Thread H K
  with_registers t = record t {
    kernel =
        (K.set_regs t.kernel t.vm.vcpu_fd
          (record { rflags = 2; rip = guest_start_addr; rsp = t.vm.mem_size })).0;
    request_interrupt_window = ltb 0 t.interrupt_count;
  }

  abbrev with_image : ImageFile → Thread H K → Thread H K
  with_image image t = record t {
    world = record t.world {
      mem = (load_guest_image image t.vm.mem_size guest_start_addr t.world.mem).0;
    };
  }

  abbrev with_long_mode : ℕ → Sregs → Thread H K → Thread H K
  with_long_mode page_size sregs t = record t {
    kernel =
        (K.set_sregs t.kernel t.vm.vcpu_fd
          (setup_long_mode t.vm.mem_size page_size t.world.mem sregs).1).0;
    world = record t.world { mem = (setup_long_mode t.vm.mem_size page_size t.world.mem sregs).0 };
  }

  set_registers-running :
      (t : Thread H K)
      → (set_registers H K t).0 ≡ running
      → (set_registers H K t).1 ≡ with_registers t
  unfolding set_registers stop
  set_registers-running t h = ground arith

  load_image-running :
      (image : ImageFile) (t : Thread H K)
      → (load_image H K image t).0 ≡ running
      → ((load_guest_image image t.vm.mem_size guest_start_addr t.world.mem).1 ≡ true)
        × ((load_image H K image t).1 ≡ with_registers (with_image image t))
  unfolding load_image stop
  load_image-running image t h = ground (arith, set_registers-running (with_image image t))

  set_long_mode-running :
      (image : ImageFile) (page_size : ℕ) (sregs : Sregs) (t : Thread H K)
      → (set_long_mode H K image page_size sregs t).0 ≡ running
      → let t1 = with_long_mode page_size sregs t in
        ((load_guest_image image t1.vm.mem_size guest_start_addr t1.world.mem).1 ≡ true)
        × ((set_long_mode H K image page_size sregs t).1 ≡ with_registers (with_image image t1))
  unfolding set_long_mode stop
  set_long_mode-running image page_size sregs t h =
      ground (arith, load_image-running image (with_long_mode page_size sregs t))

  -- The thread on which the tables are set up.
  abbrev created : ℕ → K.State → Thread H K → Thread H K
  created memory_size s t = record (fresh H K memory_size t) {
    vm = (vm_init K memory_size t.kernel).1;
    kernel = s;
  }

  boot-running :
      (image : ImageFile) (memory_size page_size : ℕ) (t : Thread H K)
      → (boot H K image memory_size page_size t).0 ≡ running
      → (s : K.State) × (sregs : Sregs) × (let t1 =
            with_long_mode page_size sregs (created memory_size s t) in
          ((load_guest_image image t1.vm.mem_size guest_start_addr t1.world.mem).1 ≡ true)
          × ((boot H K image memory_size page_size t).1 ≡ with_registers (with_image image t1)))
  unfolding boot get_registers stop
  boot-running image memory_size page_size t h =
      let (good, vm, s) = vm_init K memory_size t.kernel in
      let (s1, result, sregs) = K.get_sregs s vm.vcpu_fd in
      (
        s1,
        sregs,
        ground (arith, set_long_mode-running image page_size sregs (created memory_size s1 t)),
      )

  boot-IsReady_sized :
      (image : ImageFile) (memory_size page_size : ℕ) (t : Thread H K)
      → memory_size ≤ 4 * page_size_2m
      → memory_size % page_size_2m ≡ 0
      → guest_start_addr ≤ memory_size
      → (boot H K image memory_size page_size t).0 ≡ running
      → IsReady H K image memory_size (boot H K image memory_size page_size t).1
  unfolding setup_long_mode setup_segments_64
  boot-IsReady_sized image memory_size page_size t fits whole room going =
      let (s, sregs, (loaded, same)) = boot-running image memory_size page_size t going in
      let size = vm_init-mem_size K memory_size t.kernel in
      let t1 = with_long_mode page_size sregs (created memory_size s t) in
      let n = t1.vm.mem_size in
      let ready : IsReady H K image n (with_registers (with_image image t1)) = record {
        identity = λ va inside.
            translate-Agrees n (λ a. 0) _ (omega (arith, size)) page_size va (omega (arith, size))
              inside (λ a low. load_guest_image-below image n guest_start_addr t1.world.mem a low);
        loaded =
            load_guest_image-HasImage image n guest_start_addr t1.world.mem (omega (arith, size))
              (omega (arith, size)) loaded;
        entered = (s, _, refl, refl, refl, refl, refl);
        due = refl;
        window = refl;
      } in
      subst (IsReady H K image memory_size) (sym same)
        (subst (λ x. IsReady H K image x (with_registers (with_image image t1))) size ready)

  -- With the memory and page size of an accepted command line, if a machine reaches its loop, then its
  -- processor translates every address of guest memory to itself with the image in place; all bytes
  -- of the image stand from the start address on, inside guest memory; the last calls to the kernel
  -- set the registers that turn paging on and those with which the guest starts; and two interrupts
  -- are due, with the window for them requested.
  pub boot-IsReady :
      (arguments : List String) (r : CliResult) (image : ImageFile) (t : Thread H K)
      → parse_arguments arguments ≡ some r
      → r.status ≡ ok
      → (boot H K image r.config.memory_size r.config.page_size t).0 ≡ running
      → IsReady H K image r.config.memory_size
          (boot H K image r.config.memory_size r.config.page_size t).1
  boot-IsReady arguments r image t accepted good going =
      let config = parse_arguments-IsAccepted arguments r accepted good in
      boot-IsReady_sized image r.config.memory_size r.config.page_size t (omega (arith, config))
        (omega (arith, config)) (omega (arith, config)) going
