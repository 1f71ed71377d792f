-- ===== src/Runner/Ended.antt =====
-- host/src/vm_runner.cpp, `runGuest`: what a thread leaves behind when its machine has ended.
use kvm_hypervisor.Base.{ℕ, ◌+◌, ◌≡◌, ◌⊎◌, refl, subst, ap, arith, Bool, true, false, List}
use kvm_hypervisor.FileIo.Host.{Host}
use kvm_hypervisor.FileIo.Port.{close_guest_files}
use kvm_hypervisor.SharedBuffer.State.{SharedBufferState}
use kvm_hypervisor.SharedBuffer.{abort_shared_buffer}
use kvm_hypervisor.Startup.{ImageFile}
use kvm_hypervisor.Machine.Kernel.{KernelInterface, IsKernel, Account}
use kvm_hypervisor.Runner.State.{Thread, Event, Status, running, waiting, finished}
use kvm_hypervisor.Runner.{boot, run_virtual_machine, finish_guest, end_guest, run_guest}
use kvm_hypervisor.Runner.Handles.{IsAccounted, Kept, run_events-Kept}
use kvm_hypervisor.Runner.Booted.{boot-Kept}

module _ (H : Host) (K : KernelInterface) (account : K.State → Account)
    (L : IsKernel K account) where
  run_virtual_machine-Kept :
      (image : ImageFile) (memory_size page_size : ℕ) (events : List Event) (t : Thread H K)
      → Kept H K account L
          (account t.kernel)
          (run_virtual_machine H K image memory_size page_size events t)
  unfolding run_virtual_machine
  run_virtual_machine-Kept image memory_size page_size events t =
      let (status, t1) = boot H K image memory_size page_size t in
      run_events-Kept H K account L (account t.kernel) events status t1
        (boot-Kept H K account L (account t.kernel) image memory_size page_size t refl)

  -- What `runGuest` leaves, by the result of `runVirtualMachine`.
  pub record IsEnded (before : Account) (at_end : SharedBufferState) (completed : Bool)
      (t : Thread H K) : Type 0 where
    pub same_handles : (account t.kernel).held ≡ before.held
    pub nothing_twice : (account t.kernel).wrong ≡ before.wrong
    pub shared_end :
        ((completed ≡ true) × (t.shared ≡ at_end))
        ⊎ ((completed ≡ false) × (t.shared ≡ record at_end { stopped = true }))

  finish_guest-IsEnded :
      (before : Account) (at_end : SharedBufferState) (completed : Bool) (t : Thread H K)
      → IsAccounted H K account L before before.held t.kernel t.interrupt_count
      → IsEnded before at_end completed (finish_guest H K at_end completed t)
  unfolding finish_guest close_guest_files abort_shared_buffer
  finish_guest-IsEnded before at_end completed t (h, n) = record {
    same_handles = ap (λ (a : Account). a.held) h;
    nothing_twice = ap (λ (a : Account). a.wrong) h;
    shared_end = ground arith;
  }

  -- What the parts below share: how the thread stands when the run has got as far as the events say.
  abbrev IsLeft : Account → SharedBufferState → Status × Thread H K → Type 0
  IsLeft before at_end (running, t) = Unit
  IsLeft before at_end (waiting io, t) = Unit
  IsLeft before at_end (finished completed, t) = IsEnded before at_end completed t

  end_guest-IsLeft :
      (before : Account) (at_end : SharedBufferState) (r : Status × Thread H K)
      → Kept H K account L before r
      → IsLeft before at_end (end_guest H K at_end r)
  end_guest-IsLeft before at_end (running, t) h = tt
  end_guest-IsLeft before at_end (waiting io, t) h = tt
  end_guest-IsLeft before at_end (finished completed, t) h =
      finish_guest-IsEnded before at_end completed t h

  -- However a thread's machine ends, at whichever call of the kernel before its loop or by whichever
  -- event in it, afterwards the process holds the kernel's descriptors and mappings that it held before,
  -- and none was given back that was not held; and the shared buffer has its flag `stopped` set, and is
  -- else as it is found, unless the machine completed, in which case it is left as it is found. This
  -- rests on the documented effect of the kernel's calls.
  pub run_guest-IsEnded :
      (image : ImageFile) (memory_size page_size : ℕ) (events : List Event)
      → (at_end : SharedBufferState) (completed : Bool) (t t' : Thread H K)
      → run_guest H K image memory_size page_size events at_end t ≡ (finished completed, t')
      → IsEnded (account t.kernel) at_end completed t'
  unfolding run_guest
  run_guest-IsEnded image memory_size page_size events at_end completed t t' h =
      let r = run_virtual_machine H K image memory_size page_size events t in
      let ended =
        end_guest-IsLeft (account t.kernel) at_end r
          (run_virtual_machine-Kept image memory_size page_size events t) in
      subst (IsLeft (account t.kernel) at_end) h ended

  Kept-interrupts :
      (before : Account) (r : Status × Thread H K)
      → Kept H K account L before r
      → (account r.1.kernel).interrupts + r.1.interrupt_count ≡ before.interrupts + 2
  Kept-interrupts before (running, t) (h, n) = n
  Kept-interrupts before (waiting io, t) (h, n) = n
  Kept-interrupts before (finished completed, t) (h, n) = n

  -- At every point of a run the interrupts that were delivered and those that are left are two
  -- together, whatever the events are, so that a guest is interrupted at most twice.
  pub run_virtual_machine-interrupts :
      (image : ImageFile) (memory_size page_size : ℕ) (events : List Event) (t : Thread H K)
      → let t' = (run_virtual_machine H K image memory_size page_size events t).1 in
        (account t'.kernel).interrupts + t'.interrupt_count ≡ (account t.kernel).interrupts + 2
  run_virtual_machine-interrupts image memory_size page_size events t =
      Kept-interrupts (account t.kernel)
        (run_virtual_machine H K image memory_size page_size events t)
        (run_virtual_machine-Kept image memory_size page_size events t)
