-- ===== src/Runner/Handles.antt =====
-- host/src/vm_runner.cpp, `runVirtualMachine`: what the process holds while a thread runs.
use kvm_hypervisor.Base.{
  ℕ, ◌+◌, ◌≡◌, ◌<◌, sym, subst, ap, arith, Bool, true, false, Bool-cases, inl, inr, Option, List,
  [], ◌∷◌,
}
use kvm_hypervisor.Exit.{
  ExitReason, exit_io, exit_irq_window_open, exit_hlt, exit_shutdown, exit_other, Io,
}
use kvm_hypervisor.FileIo.Host.{Host}
use kvm_hypervisor.Machine.Kernel.{KernelInterface, IsKernel, Account, Handle}
use kvm_hypervisor.Machine.Ledger.{handles, vm_destroy-Holds}
use kvm_hypervisor.Runner.State.{
  Thread, Event, RunAnswer, interrupted, run_failed, exited, Status, running, waiting, finished,
  print_error,
}
use kvm_hypervisor.Runner.Serial.{flush_serial_output, handle_serial_io}
use kvm_hypervisor.Runner.Cases.{
  serve_file_cases, serve_shared_cases, serve_io_cases, serve_window_cases, with_buffers,
  inject_cases, after_interrupt,
}
use kvm_hypervisor.Runner.{
  irq_num, with_memory, mapping_size, stop, after_io, serve_file, serve_shared, serve_serial,
  serve_io, inject, serve_window, serve_halt, serve_exit, serve_answer, serve, run_events,
}

module _ (H : Host) (K : KernelInterface) where
  -- The console changes neither the handles nor the kernel.
  abbrev SameMachine : Thread H K → Thread H K → Type 0
  SameMachine t t' =
      (t'.vm ≡ t.vm) × (t'.kernel ≡ t.kernel) × (t'.interrupt_count ≡ t.interrupt_count)

  flush_serial_output-SameMachine :
      (finish : Bool) (t : Thread H K) → SameMachine t (flush_serial_output H K finish t)
  unfolding flush_serial_output
  flush_serial_output-SameMachine finish t = ground arith

  handle_serial_io-SameMachine :
      (io : Io) (size : ℕ) (input : Option ℕ) (t : Thread H K)
      → SameMachine t (handle_serial_io H K io size input t).0
  unfolding handle_serial_io
  handle_serial_io-SameMachine io size input t = ground arith

  module _ (account : K.State → Account) (L : IsKernel K account) (a : Account) where
    -- Of the process's account `a` at the start the thread adds these handles; what is left of the two
    -- interrupts and what was delivered are two together.
    abbrev pub IsAccounted : List Handle → K.State → ℕ → Type 0
    IsAccounted hs s n =
        (account s ≡ record a { held = hs; interrupts = (account s).interrupts })
        × ((account s).interrupts + n ≡ a.interrupts + 2)

    abbrev pub Runs : Thread H K → Type 0
    Runs t = IsAccounted (handles t.vm a.held) t.kernel t.interrupt_count

    abbrev pub Kept : Status × Thread H K → Type 0
    Kept (running, t) = Runs t
    Kept (waiting io, t) = Runs t
    Kept (finished result, t) = IsAccounted a.held t.kernel t.interrupt_count

    SameMachine-Runs : (t t' : Thread H K) → SameMachine t t' → Runs t → Runs t'
    SameMachine-Runs t t' (v, k, n) h =
        subst (λ x. IsAccounted (handles x a.held) t'.kernel t'.interrupt_count) (sym v)
          (subst (λ x. IsAccounted (handles t.vm a.held) x t'.interrupt_count) (sym k)
            (subst (λ x. IsAccounted (handles t.vm a.held) t.kernel x) (sym n) h))

    pub stop-Kept : (result : Bool) (t : Thread H K) → Runs t → Kept (stop H K result t)
    unfolding stop
    stop-Kept result t (h, n) =
        let after =
          vm_destroy-Holds K account L (record a { interrupts = (account t.kernel).interrupts })
            t.vm a.held t.kernel h in
        (ground (arith, after), omega (arith, n, ap (λ (x : Account). x.interrupts) after))

    after_io-Kept : (handled : Bool) (t : Thread H K) → Runs t → Kept (after_io H K handled t)
    unfolding after_io
    after_io-Kept true t h = h
    after_io-Kept false t h =
        let t1 = flush_serial_output H K true t in
        stop-Kept false t1 (SameMachine-Runs t t1 (flush_serial_output-SameMachine true t) h)

    serve_file-Kept : (io : Io) (t : Thread H K) → Runs t → Kept (serve_file H K io t)
    serve_file-Kept io t h = elim (serve_file_cases H K io t) [
      | inl e ↦ subst Kept (sym e) (after_io-Kept false t h)
      | inr (world, area, handled, e) ↦ subst Kept (sym e) h
    ]

    serve_shared-Kept : (io : Io) (t : Thread H K) → Runs t → Kept (serve_shared H K io t)
    serve_shared-Kept io t h = elim (serve_shared_cases H K io t) [
      | inl e ↦ subst Kept (sym e) h
      | inr (handled, b, called, e) ↦
          subst Kept (sym e) (after_io-Kept handled (with_buffers H K b t) h)
    ]

    serve_serial-Kept :
        (io : Io) (input : Option ℕ) (t : Thread H K) → Runs t → Kept (serve_serial H K io input t)
    unfolding serve_serial
    serve_serial-Kept io input t h =
        let (t1, handled) = handle_serial_io H K io (mapping_size H K t) input t in
        after_io-Kept handled t1
          (SameMachine-Runs t t1 (handle_serial_io-SameMachine io (mapping_size H K t) input t) h)

    serve_io-Kept :
        (io : Io) (input : Option ℕ) (t : Thread H K) → Runs t → Kept (serve_io H K io input t)
    serve_io-Kept io input t h = elim (serve_io_cases H K io input t) [
      | inl e ↦ subst Kept (sym e) (serve_file-Kept io t h)
      | inr (inl e) ↦ subst Kept (sym e) (serve_shared-Kept io t h)
      | inr (inr e) ↦ subst Kept (sym e) (serve_serial-Kept io input t h)
    ]

    inject-Kept : (t : Thread H K) → 0 < t.interrupt_count → Runs t → Kept (inject H K t)
    inject-Kept t some_left (h, n) =
        let law = L.interrupt_lem t.kernel t.vm.vcpu_fd irq_num in
        elim (inject_cases H K t) [
          | inl (bad, e) ↦
              let same : account (after_interrupt H K t).kernel ≡ account t.kernel = ground arith in
              subst Kept (sym e) (
                stop-Kept false
                  (print_error H K "Failed to inject an interrupt" (after_interrupt H K t))
                  (ground arith, ground arith))
          | inr (good, e) ↦ subst Kept (sym e) (ground arith, ground arith)
        ]

    serve_window-Kept : (t : Thread H K) → Runs t → Kept (serve_window H K t)
    serve_window-Kept t h = elim (serve_window_cases H K t) [
      | inl (some_left, e) ↦ subst Kept (sym e) (inject-Kept t some_left h)
      | inr e ↦ subst Kept (sym e) h
    ]

    flush-Kept :
        (result : Bool) (t : Thread H K)
        → Runs t
        → Kept (stop H K result (flush_serial_output H K true t))
    flush-Kept result t h =
        let t1 = flush_serial_output H K true t in
        stop-Kept result t1 (SameMachine-Runs t t1 (flush_serial_output-SameMachine true t) h)

    serve_halt-Kept : (t : Thread H K) → Runs t → Kept (serve_halt H K t)
    unfolding serve_halt
    serve_halt-Kept t h = elim (Bool-cases t.own.transfer_completed) [
      | inl done ↦ ground (arith, flush-Kept true t h)
      | inr not_done ↦ ground (arith, flush-Kept false t h)
    ]

    serve_exit-Kept :
        (reason : ExitReason) (io : Io) (input : Option ℕ) (t : Thread H K)
        → Runs t
        → Kept (serve_exit H K reason io input t)
    unfolding serve_exit
    serve_exit-Kept exit_io io input t h = serve_io-Kept io input t h
    serve_exit-Kept exit_irq_window_open io input t h = serve_window-Kept t h
    serve_exit-Kept exit_hlt io input t h = serve_halt-Kept t h
    serve_exit-Kept exit_shutdown io input t h = flush-Kept false t h
    serve_exit-Kept (exit_other n) io input t h = flush-Kept false t h

    serve_answer-Kept :
        (answer : RunAnswer) (input : Option ℕ) (t : Thread H K)
        → Runs t
        → Kept (serve_answer H K answer input t)
    unfolding serve_answer
    serve_answer-Kept interrupted input t h = h
    serve_answer-Kept run_failed input t h = stop-Kept false t h
    serve_answer-Kept (exited reason io area mem) input t h =
        serve_exit-Kept reason io input (with_memory H K area mem t) h

    serve-Kept :
        (status : Status) (e : Event) (t : Thread H K)
        → Kept (status, t)
        → Kept (serve H K status e t)
    unfolding serve
    serve-Kept running e t h = serve_answer-Kept e.answer e.input (record t { shared = e.shared }) h
    serve-Kept (waiting io) e t h = serve_shared-Kept io (record t { shared = e.shared }) h
    serve-Kept (finished result) e t h = h

    pub run_events-Kept :
        (events : List Event) (status : Status) (t : Thread H K)
        → Kept (status, t)
        → Kept (run_events H K events status t)
    unfolding run_events
    run_events-Kept [] status t h = h
    run_events-Kept (e ∷ events) status t h =
        let (status1, t1) = serve H K status e t in
        run_events-Kept events status1 t1 (serve-Kept status e t h)

    pub same-account :
        (hs : List Handle) (s s1 : K.State) (n : ℕ)
        → account s1 ≡ account s
        → IsAccounted hs s n
        → IsAccounted hs s1 n
    same-account hs s s1 n e (h, k) = (ground arith, ground arith)
