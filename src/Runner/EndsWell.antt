-- ===== src/Runner/EndsWell.antt =====
-- host/src/vm_runner.cpp: how a machine stands for which the loop has ended with success.
use kvm_hypervisor.Base.{ℕ, ◌≡◌, ◌∙◌, inl, inr, sym, subst, arith, Bool, true, false, Option, []}
use kvm_hypervisor.Exit.{
  ExitReason, exit_io, exit_irq_window_open, exit_hlt, exit_shutdown, exit_other, Io,
}
use kvm_hypervisor.FileIo.Host.{Host}
use kvm_hypervisor.Machine.Kernel.{KernelInterface}
use kvm_hypervisor.Startup.{ImageFile}
use kvm_hypervisor.Runner.State.{
  Thread, Event, RunAnswer, interrupted, run_failed, exited, Status, running, waiting, finished,
}
use kvm_hypervisor.Runner.Serial.{flush_serial_output, handle_serial_io}
use kvm_hypervisor.Runner.Cases.{
  serve_file_cases, serve_shared_cases, serve_io_cases, serve_window_cases, inject_cases,
  with_buffers, flush-empty,
}
use kvm_hypervisor.Runner.{
  boot, mapping_size, with_memory, stop, after_io, serve_file, serve_shared, serve_serial,
  serve_window, serve_halt, serve_exit, serve_answer, serve,
}

module _ (H : Host) (K : KernelInterface) where
  pub flush-own : (finish : Bool) (t : Thread H K) → (flush_serial_output H K finish t).own ≡ t.own
  unfolding flush_serial_output
  flush-own finish t = ground arith

  -- A machine that has ended well has its flag set and its text printed.
  abbrev pub EndsWell : Status × Thread H K → Type 0
  EndsWell (finished true, t) = (t.own.transfer_completed ≡ true) × (t.serial_output_buffer ≡ [])
  EndsWell (finished false, t) = Unit
  EndsWell (running, t) = Unit
  EndsWell (waiting io, t) = Unit

  after_io-EndsWell : (handled : Bool) (t : Thread H K) → EndsWell (after_io H K handled t)
  unfolding after_io stop
  after_io-EndsWell true t = tt
  after_io-EndsWell false t = tt

  serve_shared-EndsWell : (io : Io) (t : Thread H K) → EndsWell (serve_shared H K io t)
  serve_shared-EndsWell io t = elim (serve_shared_cases H K io t) [
    | inl e ↦ subst EndsWell (sym e) tt
    | inr (handled, b, called, e) ↦
        subst EndsWell (sym e) (after_io-EndsWell handled (with_buffers H K b t))
  ]

  serve_file-EndsWell : (io : Io) (t : Thread H K) → EndsWell (serve_file H K io t)
  serve_file-EndsWell io t = elim (serve_file_cases H K io t) [
    | inl e ↦ subst EndsWell (sym e) (after_io-EndsWell false t)
    | inr (world, area, called, e) ↦ subst EndsWell (sym e) tt
  ]

  serve_serial-EndsWell :
      (io : Io) (input : Option ℕ) (t : Thread H K) → EndsWell (serve_serial H K io input t)
  unfolding serve_serial
  serve_serial-EndsWell io input t =
      let (t1, handled) = handle_serial_io H K io (mapping_size H K t) input t in
      after_io-EndsWell handled t1

  serve_window-EndsWell : (t : Thread H K) → EndsWell (serve_window H K t)
  unfolding stop
  serve_window-EndsWell t = elim (serve_window_cases H K t) [
    | inl (some_left, e) ↦ elim (inject_cases H K t) [
      | inl (bad, e1) ↦ subst EndsWell (sym (e ∙ e1)) tt
      | inr (good, e1) ↦ subst EndsWell (sym (e ∙ e1)) tt
    ]
    | inr e ↦ subst EndsWell (sym e) tt
  ]

  serve_halt-EndsWell : (t : Thread H K) → EndsWell (serve_halt H K t)
  unfolding serve_halt stop
  serve_halt-EndsWell t = ground (arith, flush-own true t, flush-empty H K true t)

  serve_exit-EndsWell :
      (reason : ExitReason) (io : Io) (input : Option ℕ) (t : Thread H K)
      → EndsWell (serve_exit H K reason io input t)
  unfolding serve_exit stop
  serve_exit-EndsWell exit_io io input t = elim (serve_io_cases H K io input t) [
    | inl e ↦ subst EndsWell (sym e) (serve_file-EndsWell io t)
    | inr (inl e) ↦ subst EndsWell (sym e) (serve_shared-EndsWell io t)
    | inr (inr e) ↦ subst EndsWell (sym e) (serve_serial-EndsWell io input t)
  ]
  serve_exit-EndsWell exit_irq_window_open io input t = serve_window-EndsWell t
  serve_exit-EndsWell exit_hlt io input t = serve_halt-EndsWell t
  serve_exit-EndsWell exit_shutdown io input t = tt
  serve_exit-EndsWell (exit_other n) io input t = tt

  serve_answer-EndsWell :
      (answer : RunAnswer) (input : Option ℕ) (t : Thread H K)
      → EndsWell (serve_answer H K answer input t)
  unfolding serve_answer stop
  serve_answer-EndsWell interrupted input t = tt
  serve_answer-EndsWell run_failed input t = tt
  serve_answer-EndsWell (exited reason io area mem) input t =
      serve_exit-EndsWell reason io input (with_memory H K area mem t)

  pub serve-EndsWell :
      (status : Status) (e : Event) (t : Thread H K)
      → EndsWell (status, t)
      → EndsWell (serve H K status e t)
  unfolding serve
  serve-EndsWell running e t h =
      serve_answer-EndsWell e.answer e.input (record t { shared = e.shared })
  serve-EndsWell (waiting io) e t h = serve_shared-EndsWell io (record t { shared = e.shared })
  serve-EndsWell (finished result) e t h = h

  pub boot-EndsWell :
      (image : ImageFile) (memory_size page_size : ℕ) (t : Thread H K)
      → EndsWell (boot H K image memory_size page_size t)
        × ((boot H K image memory_size page_size t).1.own ≡ t.own)
  unfolding boot stop
  boot-EndsWell image memory_size page_size t = (ground arith, ground arith)
