-- ===== src/Runner/Reported.antt =====
-- host/src/vm_runner.cpp: what a thread says of its machine's end.
use kvm_hypervisor.Base.{
  ℕ, ◌≡◌, ◌∙◌, ◌⊎◌, inl, inr, refl, sym, subst, ap, arith, true, false, Bool-cases, Option, List,
  [], ◌∷◌, ◌++◌,
}
use kvm_hypervisor.Exit.{
  ExitReason, exit_io, exit_irq_window_open, exit_hlt, exit_shutdown, exit_other, Io,
}
use kvm_hypervisor.FileIo.Host.{Host}
use kvm_hypervisor.Machine.Kernel.{KernelInterface}
use kvm_hypervisor.Base.Int.{is_neg}
use kvm_hypervisor.LongMode.{Sregs, setup_long_mode, guest_start_addr}
use kvm_hypervisor.Machine.{vm_init}
use kvm_hypervisor.Startup.{ImageFile, load_guest_image}
use kvm_hypervisor.Runner.State.{
  Thread, Event, RunAnswer, interrupted, run_failed, exited, Status, running, waiting, finished,
  Message, halt_message, say, print_error,
}
use kvm_hypervisor.Runner.Serial.{flush_serial_output, handle_serial_io}
use kvm_hypervisor.Runner.Cases.{
  serve_file_cases, serve_shared_cases, serve_io_cases, serve_window_cases, inject_cases,
  with_buffers, after_interrupt,
}
use kvm_hypervisor.Runner.{
  boot, run_virtual_machine, mapping_size, with_memory, stop, serve_file, serve_shared,
  serve_serial, serve_window, serve_halt, serve_exit, serve_answer, serve, run_events,
  get_registers, set_long_mode, load_image, set_registers, fresh,
}
use kvm_hypervisor.Runner.Reports.{
  IsReported, flush-messages, stop-IsReported, after_io-IsReported, handle_serial_io-Handled,
}

module _ (H : Host) (K : KernelInterface) where
  serve_file-IsReported :
      (io : Io) (t : Thread H K) → IsReported H K t.messages (serve_file H K io t)
  serve_file-IsReported io t = elim (serve_file_cases H K io t) [
    | inl e ↦
        subst (IsReported H K t.messages) (sym e)
          (after_io-IsReported H K t.messages false t (inl refl))
    | inr (world, area, handled, e) ↦ subst (IsReported H K t.messages) (sym e) refl
  ]

  serve_shared-IsReported :
      (io : Io) (t : Thread H K) → IsReported H K t.messages (serve_shared H K io t)
  serve_shared-IsReported io t = elim (serve_shared_cases H K io t) [
    | inl e ↦ subst (IsReported H K t.messages) (sym e) refl
    | inr (handled, b, called, e) ↦
        subst (IsReported H K t.messages) (sym e)
          (after_io-IsReported H K t.messages handled (with_buffers H K b t) (inl refl))
  ]

  serve_serial-IsReported :
      (io : Io) (input : Option ℕ) (t : Thread H K)
      → IsReported H K t.messages (serve_serial H K io input t)
  unfolding serve_serial
  serve_serial-IsReported io input t =
      let (t1, handled) = handle_serial_io H K io (mapping_size H K t) input t in
      after_io-IsReported H K t.messages handled t1
        (handle_serial_io-Handled H K io (mapping_size H K t) input t)

  serve_window-IsReported : (t : Thread H K) → IsReported H K t.messages (serve_window H K t)
  serve_window-IsReported t = elim (serve_window_cases H K t) [
    | inl (some_left, e) ↦ elim (inject_cases H K t) [
      | inl (bad, e1) ↦
          subst (IsReported H K t.messages) (sym (e ∙ e1))
            (stop-IsReported H K t.messages _ (after_interrupt H K t) tt refl)
      | inr (good, e1) ↦ subst (IsReported H K t.messages) (sym (e ∙ e1)) refl
    ]
    | inr e ↦ subst (IsReported H K t.messages) (sym e) refl
  ]

  serve_halt_cases :
      (t : Thread H K)
      → let t1 = flush_serial_output H K true t in
        (serve_halt H K t ≡ stop H K true (say H K halt_message t1))
        ⊎ (serve_halt H K t
            ≡ stop H K false
                (print_error H K "VM halted before completing the shared buffer transfer" t1))
  unfolding serve_halt
  serve_halt_cases t = ground arith

  serve_halt-IsReported : (t : Thread H K) → IsReported H K t.messages (serve_halt H K t)
  unfolding stop
  serve_halt-IsReported t =
      let t1 = flush_serial_output H K true t in
      let same = flush-messages H K true t in
      elim (serve_halt_cases t) [
        | inl e ↦ subst (IsReported H K t.messages) (sym e) (ap (λ x. x ++ halt_message ∷ []) same)
        | inr e ↦
            subst (IsReported H K t.messages) (sym e) (stop-IsReported H K t.messages _ t1 tt same)
      ]

  serve_exit-IsReported :
      (reason : ExitReason) (io : Io) (input : Option ℕ) (t : Thread H K)
      → IsReported H K t.messages (serve_exit H K reason io input t)
  unfolding serve_exit
  serve_exit-IsReported exit_io io input t = elim (serve_io_cases H K io input t) [
    | inl e ↦ subst (IsReported H K t.messages) (sym e) (serve_file-IsReported io t)
    | inr (inl e) ↦ subst (IsReported H K t.messages) (sym e) (serve_shared-IsReported io t)
    | inr (inr e) ↦ subst (IsReported H K t.messages) (sym e) (serve_serial-IsReported io input t)
  ]
  serve_exit-IsReported exit_irq_window_open io input t = serve_window-IsReported t
  serve_exit-IsReported exit_hlt io input t = serve_halt-IsReported t
  serve_exit-IsReported exit_shutdown io input t =
      stop-IsReported H K t.messages _ (flush_serial_output H K true t) tt
        (flush-messages H K true t)
  serve_exit-IsReported (exit_other n) io input t =
      stop-IsReported H K t.messages _ (flush_serial_output H K true t) tt
        (flush-messages H K true t)

  serve_answer-IsReported :
      (answer : RunAnswer) (input : Option ℕ) (t : Thread H K)
      → IsReported H K t.messages (serve_answer H K answer input t)
  unfolding serve_answer
  serve_answer-IsReported interrupted input t = refl
  serve_answer-IsReported run_failed input t = stop-IsReported H K t.messages _ t tt refl
  serve_answer-IsReported (exited reason io area mem) input t =
      serve_exit-IsReported reason io input (with_memory H K area mem t)

  serve-IsReported :
      (before : List Message) (status : Status) (e : Event) (t : Thread H K)
      → IsReported H K before (status, t)
      → IsReported H K before (serve H K status e t)
  unfolding serve
  serve-IsReported before running e t h =
      subst (λ x. IsReported H K x (serve H K running e t)) h
        (serve_answer-IsReported e.answer e.input (record t { shared = e.shared }))
  serve-IsReported before (waiting io) e t h =
      subst (λ x. IsReported H K x (serve H K (waiting io) e t)) h
        (serve_shared-IsReported io (record t { shared = e.shared }))
  serve-IsReported before (finished result) e t h = h

  run_events-IsReported :
      (before : List Message) (events : List Event) (status : Status) (t : Thread H K)
      → IsReported H K before (status, t)
      → IsReported H K before (run_events H K events status t)
  unfolding run_events
  run_events-IsReported before [] status t h = h
  run_events-IsReported before (e ∷ events) status t h =
      let (status1, t1) = serve H K status e t in
      run_events-IsReported before events status1 t1 (serve-IsReported before status e t h)

  set_registers-IsReported : (t : Thread H K) → IsReported H K t.messages (set_registers H K t)
  unfolding set_registers
  set_registers-IsReported t =
      let (s, result) =
        K.set_regs t.kernel t.vm.vcpu_fd
          (record { rflags = 2; rip = guest_start_addr; rsp = t.vm.mem_size }) in
      elim (Bool-cases (is_neg result)) [
        | inl bad ↦
            rw (bad, IsReported)
              (stop-IsReported H K t.messages _ (record t { kernel = s }) tt refl)
        | inr good ↦ rw (good, IsReported) refl
      ]

  load_image-IsReported :
      (image : ImageFile) (t : Thread H K) → IsReported H K t.messages (load_image H K image t)
  unfolding load_image
  load_image-IsReported image t =
      let (mem, loaded) = load_guest_image image t.vm.mem_size guest_start_addr t.world.mem in
      let t1 = record t { world = record t.world { mem = mem } } in
      elim (Bool-cases loaded) [
        | inl good ↦ rw (good, IsReported) (set_registers-IsReported t1)
        | inr bad ↦ rw (bad, IsReported) (stop-IsReported H K t.messages _ t1 tt refl)
      ]

  set_long_mode-IsReported :
      (image : ImageFile) (page_size : ℕ) (sregs : Sregs) (t : Thread H K)
      → IsReported H K t.messages (set_long_mode H K image page_size sregs t)
  unfolding set_long_mode
  set_long_mode-IsReported image page_size sregs t =
      let (mem, sregs1) = setup_long_mode t.vm.mem_size page_size t.world.mem sregs in
      let (s, result) = K.set_sregs t.kernel t.vm.vcpu_fd sregs1 in
      let t1 = record t { kernel = s; world = record t.world { mem = mem } } in
      elim (Bool-cases (is_neg result)) [
        | inl bad ↦ rw (bad, IsReported) (stop-IsReported H K t.messages _ t1 tt refl)
        | inr good ↦ rw (good, IsReported) (load_image-IsReported image t1)
      ]

  get_registers-IsReported :
      (image : ImageFile) (page_size : ℕ) (t : Thread H K)
      → IsReported H K t.messages (get_registers H K image page_size t)
  unfolding get_registers
  get_registers-IsReported image page_size t =
      let (s, result, sregs) = K.get_sregs t.kernel t.vm.vcpu_fd in
      let t1 = record t { kernel = s } in
      elim (Bool-cases (is_neg result)) [
        | inl bad ↦ rw (bad, IsReported) (stop-IsReported H K t.messages _ t1 tt refl)
        | inr good ↦ rw (good, IsReported) (set_long_mode-IsReported image page_size sregs t1)
      ]

  boot-IsReported :
      (image : ImageFile) (memory_size page_size : ℕ) (t : Thread H K)
      → IsReported H K t.messages (boot H K image memory_size page_size t)
  unfolding boot
  boot-IsReported image memory_size page_size t =
      let (good, vm, s) = vm_init K memory_size t.kernel in
      let t1 = record (fresh H K memory_size t) { vm = vm; kernel = s } in
      elim (Bool-cases good) [
        | inl done ↦ rw (done, IsReported) (get_registers-IsReported image page_size t1)
        | inr bad ↦ rw (bad, IsReported) (stop-IsReported H K t.messages _ t1 tt refl)
      ]

  -- At every point of a run, from whichever call or event on, the thread has said nothing as long as its
  -- machine has not ended; when the machine has completed it has said that the guest halted, once and
  -- nothing else; and when the machine has failed it has reported the failure, in one message or in two,
  -- and never a halt.
  pub run_virtual_machine-IsReported :
      (image : ImageFile) (memory_size page_size : ℕ) (events : List Event) (t : Thread H K)
      → IsReported H K t.messages (run_virtual_machine H K image memory_size page_size events t)
  unfolding run_virtual_machine
  run_virtual_machine-IsReported image memory_size page_size events t =
      let (status, t1) = boot H K image memory_size page_size t in
      run_events-IsReported t.messages events status t1
        (boot-IsReported image memory_size page_size t)
