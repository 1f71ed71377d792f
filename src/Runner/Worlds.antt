-- ===== src/Runner/Worlds.antt =====
-- host/src/vm_runner.cpp, `runVirtualMachine`: what a thread makes of its files. They change only where
-- an exit is taken as a file request.
use kvm_hypervisor.Base.{
  ℕ, ◌≡◌, ◌⊎◌, inl, inr, refl, ap, ◌∙◌, arith, Bool, true, false, Bool-cases, Option, some,
}
use kvm_hypervisor.Base.Memory.{Memory}
use kvm_hypervisor.Exit.{
  ExitReason, exit_io, exit_irq_window_open, exit_hlt, exit_shutdown, exit_other, Io,
}
use kvm_hypervisor.FileIo.Host.{Host}
use kvm_hypervisor.FileIo.State.{World}
use kvm_hypervisor.FileIo.Port.{handle_file_io}
use kvm_hypervisor.LongMode.{Sregs, setup_long_mode, guest_start_addr}
use kvm_hypervisor.Startup.{ImageFile, load_guest_image}
use kvm_hypervisor.Machine.{vm_init}
use kvm_hypervisor.Base.Int.{is_neg}
use kvm_hypervisor.Machine.Kernel.{KernelInterface}
use kvm_hypervisor.Runner.State.{
  Thread, Event, RunAnswer, interrupted, run_failed, exited, Status, running, waiting, finished,
}
use kvm_hypervisor.Runner.Serial.{flush_serial_output, handle_serial_io}
use kvm_hypervisor.Runner.Cases.{serve_file_cases, serve_shared_cases, serve_io_cases, with_buffers}
use kvm_hypervisor.Runner.{
  with_memory, mapping_size, stop, after_io, serve_shared, serve_serial, serve_io, inject,
  serve_window, serve_halt, serve_exit, serve_answer, serve, boot, get_registers, set_long_mode,
  load_image, set_registers, fresh,
}

module _ (H : Host) (K : KernelInterface) where
  abbrev pub with_mem : Memory → World H → World H
  with_mem mem w = record w { mem = mem }

  -- The guest has written its memory, and then the host may have served a request.
  abbrev pub IsWorldStep : World H → World H → Type 0
  IsWorldStep w w' =
      ((mem : Memory) × (w' ≡ with_mem mem w))
      ⊎ ((mem : Memory) × (io : Io) × (size : ℕ) × (area : Memory) × (area' : Memory)
          × (handle_file_io H io size area (with_mem mem w) ≡ some (w', area')))

  stop-world : (result : Bool) (t : Thread H K) → (stop H K result t).1.world ≡ t.world
  unfolding stop
  stop-world result t = refl

  flush_serial_output-world :
      (finish : Bool) (t : Thread H K) → (flush_serial_output H K finish t).world ≡ t.world
  unfolding flush_serial_output
  flush_serial_output-world finish t = ground arith

  flush-world :
      (result : Bool) (t : Thread H K)
      → (stop H K result (flush_serial_output H K true t)).1.world ≡ t.world
  flush-world result t =
      stop-world result (flush_serial_output H K true t) ∙ flush_serial_output-world true t

  after_io-world : (handled : Bool) (t : Thread H K) → (after_io H K handled t).1.world ≡ t.world
  unfolding after_io
  after_io-world true t = refl
  after_io-world false t = flush-world false t

  serve_shared-world : (io : Io) (t : Thread H K) → (serve_shared H K io t).1.world ≡ t.world
  serve_shared-world io t = elim (serve_shared_cases H K io t) [
    | inl e ↦ ap (λ (r : Status × Thread H K). r.1.world) e
    | inr (handled, b, called, e) ↦
        ap (λ (r : Status × Thread H K). r.1.world) e
        ∙ after_io-world handled (with_buffers H K b t)
  ]

  serve_serial-world :
      (io : Io) (input : Option ℕ) (t : Thread H K)
      → (serve_serial H K io input t).1.world ≡ t.world
  unfolding serve_serial handle_serial_io
  serve_serial-world io input t =
      let (t1, handled) = handle_serial_io H K io (mapping_size H K t) input t in
      let same : t1.world ≡ t.world = ground (arith, flush_serial_output-world true t) in
      after_io-world handled t1 ∙ same

  serve_window-world : (t : Thread H K) → (serve_window H K t).1.world ≡ t.world
  unfolding serve_window inject
  serve_window-world t = ground arith

  serve_halt-world : (t : Thread H K) → (serve_halt H K t).1.world ≡ t.world
  unfolding serve_halt
  serve_halt-world t = ground (arith, flush-world true t, flush-world false t)

  serve_io-IsWorldStep :
      (io : Io) (input : Option ℕ) (t : Thread H K) (mem : Memory) (w : World H)
      → t.world ≡ with_mem mem w
      → IsWorldStep w (serve_io H K io input t).1.world
  serve_io-IsWorldStep io input t mem w at = elim (serve_io_cases H K io input t) [
    | inl e ↦ elim (serve_file_cases H K io t) [
      | inl e1 ↦
          inl (
            mem,
            ap (λ (r : Status × Thread H K). r.1.world) (e ∙ e1) ∙ after_io-world false t ∙ at,
          )
      | inr (world, area, handled, e1) ↦
          inr (mem, io, mapping_size H K t, t.area, area, ground arith)
    ]
    | inr (inl e) ↦
        inl (mem, ap (λ (r : Status × Thread H K). r.1.world) e ∙ serve_shared-world io t ∙ at)
    | inr (inr e) ↦
        inl
          (mem, ap (λ (r : Status × Thread H K). r.1.world) e ∙ serve_serial-world io input t ∙ at)
  ]

  serve_exit-IsWorldStep :
      (reason : ExitReason) (io : Io) (input : Option ℕ) (t : Thread H K) (mem : Memory)
      (w : World H)
      → t.world ≡ with_mem mem w
      → IsWorldStep w (serve_exit H K reason io input t).1.world
  unfolding serve_exit
  serve_exit-IsWorldStep exit_io io input t mem w at = serve_io-IsWorldStep io input t mem w at
  serve_exit-IsWorldStep exit_irq_window_open io input t mem w at =
      inl (mem, serve_window-world t ∙ at)
  serve_exit-IsWorldStep exit_hlt io input t mem w at = inl (mem, serve_halt-world t ∙ at)
  serve_exit-IsWorldStep exit_shutdown io input t mem w at = inl (mem, flush-world false t ∙ at)
  serve_exit-IsWorldStep (exit_other n) io input t mem w at = inl (mem, flush-world false t ∙ at)

  serve_answer-IsWorldStep :
      (answer : RunAnswer) (input : Option ℕ) (t : Thread H K)
      → IsWorldStep t.world (serve_answer H K answer input t).1.world
  unfolding serve_answer
  serve_answer-IsWorldStep interrupted input t = inl (t.world.mem, refl)
  serve_answer-IsWorldStep run_failed input t = inl (t.world.mem, stop-world false t)
  serve_answer-IsWorldStep (exited reason io area mem) input t =
      serve_exit-IsWorldStep reason io input (with_memory H K area mem t) mem t.world refl

  -- One event makes one step of the files, if any.
  pub serve-IsWorldStep :
      (status : Status) (e : Event) (t : Thread H K)
      → IsWorldStep t.world (serve H K status e t).1.world
  unfolding serve
  serve-IsWorldStep running e t =
      serve_answer-IsWorldStep e.answer e.input (record t { shared = e.shared })
  serve-IsWorldStep (waiting io) e t =
      inl (t.world.mem, serve_shared-world io (record t { shared = e.shared }))
  serve-IsWorldStep (finished result) e t = inl (t.world.mem, refl)

  set_registers-world : (t : Thread H K) → (set_registers H K t).1.world ≡ t.world
  unfolding set_registers stop
  set_registers-world t = ground arith

  load_image-world :
      (image : ImageFile) (t : Thread H K)
      → (mem : Memory) × ((load_image H K image t).1.world ≡ with_mem mem t.world)
  unfolding load_image stop
  load_image-world image t =
      let mem = (load_guest_image image t.vm.mem_size guest_start_addr t.world.mem).0 in
      (mem, ground (arith, set_registers-world (record t { world = with_mem mem t.world })))

  set_long_mode-world :
      (image : ImageFile) (page_size : ℕ) (sregs : Sregs) (t : Thread H K)
      → (mem : Memory) × ((set_long_mode H K image page_size sregs t).1.world
          ≡ with_mem mem t.world)
  unfolding set_long_mode stop
  set_long_mode-world image page_size sregs t =
      let (mem, sregs1) = setup_long_mode t.vm.mem_size page_size t.world.mem sregs in
      let (s, result) = K.set_sregs t.kernel t.vm.vcpu_fd sregs1 in
      let t1 = record t { kernel = s; world = with_mem mem t.world } in
      let (mem1, e) = load_image-world image t1 in
      elim (Bool-cases (is_neg result)) [
        | inl bad ↦ (mem, ground arith)
        | inr good ↦ (mem1, ground (arith, e))
      ]

  get_registers-world :
      (image : ImageFile) (page_size : ℕ) (t : Thread H K)
      → (mem : Memory) × ((get_registers H K image page_size t).1.world ≡ with_mem mem t.world)
  unfolding get_registers stop
  get_registers-world image page_size t =
      let (s, result, sregs) = K.get_sregs t.kernel t.vm.vcpu_fd in
      let (mem1, e) = set_long_mode-world image page_size sregs (record t { kernel = s }) in
      elim (Bool-cases (is_neg result)) [
        | inl bad ↦ (t.world.mem, ground arith)
        | inr good ↦ (mem1, ground (arith, e))
      ]

  -- Before its loop a thread only sets its memory.
  pub boot-world :
      (image : ImageFile) (memory_size page_size : ℕ) (t : Thread H K)
      → (mem : Memory) × ((boot H K image memory_size page_size t).1.world
          ≡ record t.world { mem = mem; mem_size = memory_size })
  unfolding boot stop
  boot-world image memory_size page_size t =
      let (good, vm, s) = vm_init K memory_size t.kernel in
      let (mem1, e) =
        get_registers-world image page_size
          (record (fresh H K memory_size t) { vm = vm; kernel = s }) in
      elim (Bool-cases good) [
        | inl done ↦ (mem1, ground (arith, e))
        | inr bad ↦ ((λ a. 0), ground arith)
      ]
