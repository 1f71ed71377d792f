-- ===== src/Runner/Files.antt =====
-- host/src/vm_runner.cpp, `runGuest`, with the files of host/src/file_io.cpp: which host descriptors the
-- process holds when a guest has ended.
use kvm_hypervisor.Base.{
  ℕ, ◌+◌, ◌-◌, ◌^◌, ◌≤◌, ◌<◌, ◌≡◌, inl, inr, refl, sym, subst, ap, arith, Bool, List, [], ◌∷◌,
  length,
}
use kvm_hypervisor.FileIo.Host.{Host}
use kvm_hypervisor.FileIo.State.{World, FileState, no_files}
use kvm_hypervisor.FileIo.Valid.{IsValid, IsTable}
use kvm_hypervisor.FileIo.Answers.{handle_file_io-IsValid}
use kvm_hypervisor.FileIo.Ledger.{HostAccount, IsHost, Owes}
use kvm_hypervisor.FileIo.Ledger.Loops.{uses}
use kvm_hypervisor.FileIo.Ledger.Copies.{IsBalanced}
use kvm_hypervisor.FileIo.Ledger.Exits.{
  handle_file_io-Counts, handle_file_io-IsBalanced, close_guest_files-account,
}
use kvm_hypervisor.SharedBuffer.State.{SharedBufferState}
use kvm_hypervisor.Startup.{ImageFile}
use kvm_hypervisor.Machine.Kernel.{KernelInterface}
use kvm_hypervisor.Runner.State.{Thread, Event, Status, running, waiting, finished}
use kvm_hypervisor.Runner.Worlds.{with_mem, IsWorldStep, serve-IsWorldStep, boot-world}
use kvm_hypervisor.Runner.{
  serve, run_events, boot, run_virtual_machine, finish_guest, end_guest, run_guest,
}

module _ (H : Host) (K : KernelInterface) (account : H.State → HostAccount) (L : IsHost H account)
    (base : HostAccount) where
  -- The table is well formed, its descriptors lie below the bound, and the process holds what it held at
  -- first and the host descriptors of the table.
  abbrev IsSound : ℕ → World H → Type 0
  IsSound n w = IsValid H w × IsBalanced H account L base w × (w.files.next_descriptor ≤ n)

  IsWorldStep-IsSound :
      (n : ℕ) (w w' : World H)
      → n < 2 ^ 31 - 1
      → IsWorldStep H K w w'
      → IsSound n w
      → IsSound (n + 1) w'
  IsWorldStep-IsSound n w w' small (inl (mem, e)) (v, b, c) =
      subst (IsSound (n + 1)) (sym e) (v, b, omega arith)
  IsWorldStep-IsSound n w w' small (inr (mem, io, size, area, area', h)) (v, b, c) = (
    handle_file_io-IsValid H io size area (with_mem H K mem w) (w', area') (omega arith) v h,
    handle_file_io-IsBalanced H account L base io size area (with_mem H K mem w) (w', area') v b h,
    omega (arith, handle_file_io-Counts H io size area (with_mem H K mem w) (w', area') h),
  )

  run_events-IsSound :
      (n : ℕ) (events : List Event) (status : Status) (t : Thread H K)
      → n + length events < 2 ^ 31
      → IsSound n t.world
      → IsSound (n + length events) (run_events H K events status t).1.world
  unfolding run_events
  run_events-IsSound n [] status t small (v, b, c) = (v, b, omega arith)
  run_events-IsSound n (e ∷ events) status t small h =
      let (status1, t1) = serve H K status e t in
      let h1 =
        IsWorldStep-IsSound n t.world t1.world (omega arith) (serve-IsWorldStep H K status e t) h in
      let (v, b, c) = run_events-IsSound (n + 1) events status1 t1 (omega arith) h1 in
      (v, b, omega arith)

  run_virtual_machine-IsSound :
      (image : ImageFile) (memory_size page_size : ℕ) (events : List Event) (t : Thread H K)
      → length events < 2 ^ 31 - 3
      → t.world.files ≡ no_files
      → account t.world.host ≡ base
      → IsSound
          (3 + length events)
          (run_virtual_machine H K image memory_size page_size events t).1.world
  unfolding run_virtual_machine
  run_virtual_machine-IsSound image memory_size page_size events t small none a =
      let (status, t1) = boot H K image memory_size page_size t in
      let (mem, booted) = boot-world H K image memory_size page_size t in
      let w1 = record t.world { mem = mem; mem_size = memory_size } in
      let start : IsSound 3 w1 =
        subst
          (λ (f : FileState).
            IsTable w1.id w1.shared_files f
            × Owes base (uses f.open_files) (account w1.host)
            × (f.next_descriptor ≤ 3))
          (sym none)
          (
            (tt, tt, omega arith),
            (ap (λ (x : HostAccount). x.wrong) a, λ n. rw a (omega arith)),
            omega arith,
          ) in
      run_events-IsSound 3 events status t1 (omega arith) (subst (IsSound 3) (sym booted) start)

module _ (H : Host) (K : KernelInterface) (account : H.State → HostAccount)
    (L : IsHost H account) where
  -- How the process stands when the run has ended.
  abbrev IsLeft : HostAccount → Status × Thread H K → Type 0
  IsLeft base (running, t) = Unit
  IsLeft base (waiting io, t) = Unit
  IsLeft base (finished completed, t) = account t.world.host ≡ base

  end_guest-IsLeft :
      (base : HostAccount) (at_end : SharedBufferState) (r : Status × Thread H K)
      → IsBalanced H account L base r.1.world
      → IsLeft base (end_guest H K at_end r)
  unfolding finish_guest
  end_guest-IsLeft base at_end (running, t) b = tt
  end_guest-IsLeft base at_end (waiting io, t) b = tt
  end_guest-IsLeft base at_end (finished completed, t) b =
      close_guest_files-account H account L base t.world b

  -- However a thread's machine ends, the process then holds the host descriptors that it held before, as
  -- a bag, and has closed none that it did not hold, whatever files the guest opened, closed and made
  -- private, and whichever of the host's calls failed. The thread starts without open files and its run
  -- has fewer than 2^31 - 3 events. This rests on the documented effect of the host's calls on what the
  -- process holds.
  pub run_guest-account :
      (image : ImageFile) (memory_size page_size : ℕ) (events : List Event)
      → (at_end : SharedBufferState) (completed : Bool) (t t' : Thread H K)
      → t.world.files ≡ no_files
      → length events < 2 ^ 31 - 3
      → run_guest H K image memory_size page_size events at_end t ≡ (finished completed, t')
      → account t'.world.host ≡ account t.world.host
  unfolding run_guest
  run_guest-account image memory_size page_size events at_end completed t t' none small h =
      let base = account t.world.host in
      let r = run_virtual_machine H K image memory_size page_size events t in
      let (v, b, c) =
        run_virtual_machine-IsSound H K account L base image memory_size page_size events t small
          none refl in
      subst (IsLeft base) h (end_guest-IsLeft base at_end r b)
