-- ===== src/Runner/Cases.antt =====
-- host/src/vm_runner.cpp: how the handlers of an exit can end, as equations.
use kvm_hypervisor.Base.{
  ℕ, ◌-◌, ◌≡◌, ◌⊎◌, ◌<◌, inl, inr, refl, arith, sym, Bool, true, false, Option, some, Option-cases,
  ◌∙◌, ap, not, ◌&&◌, List, [], ◌∷◌, ◌++◌,
}
use kvm_hypervisor.Base.Int.{is_neg}
use kvm_hypervisor.Base.Memory.{Memory}
use kvm_hypervisor.Exit.{Io}
use kvm_hypervisor.FileIo.Host.{Host}
use kvm_hypervisor.FileIo.State.{World}
use kvm_hypervisor.FileIo.Port.{handle_file_io}
use kvm_hypervisor.SharedBuffer.{handle_shared_buffer_io}
use kvm_hypervisor.SharedBuffer.State.{Outcome, blocked, returned, Buffers}
use kvm_hypervisor.Machine.{inject_irq}
use kvm_hypervisor.Machine.Kernel.{KernelInterface}
use kvm_hypervisor.Runner.State.{Thread, Line, running, waiting, print_error}
use kvm_hypervisor.Runner.Serial.{ends_line, flush_serial_output}
use kvm_hypervisor.Runner.{
  mapping_size, buffers_of, stop, after_io, serve_file, serve_shared, serve_serial, serve_io,
  inject, serve_window, with_window, irq_num,
}

Outcome-cases :
    (o : Outcome) → (o ≡ blocked) ⊎ ((handled : Bool) × (b : Buffers) × (o ≡ returned handled b))
Outcome-cases blocked = inl refl
Outcome-cases (returned handled b) = inr (handled, b, refl)

module _ (H : Host) (K : KernelInterface) where
  abbrev pub with_file : World H → Memory → Thread H K → Thread H K
  with_file world area t = record t { world = world; area = area }

  abbrev pub with_buffers : Buffers → Thread H K → Thread H K
  with_buffers b t = record t { shared = b.shared; own = b.own; area = b.area }

  pub serve_file_cases :
      (io : Io) (t : Thread H K)
      → (serve_file H K io t ≡ after_io H K false t)
        ⊎ ((world : World H) × (area : Memory) × (handle_file_io H io
                (mapping_size H K t)
                t.area
                t.world
              ≡ some (world, area))
            × (serve_file H K io t ≡ (running, with_file world area t)))
  unfolding serve_file
  serve_file_cases io t =
      elim (Option-cases (handle_file_io H io (mapping_size H K t) t.area t.world)) [
        | inl e ↦ inl (ground arith)
        | inr ((world, area), e) ↦ inr (world, area, e, ground arith)
      ]

  pub serve_shared_cases :
      (io : Io) (t : Thread H K)
      → (serve_shared H K io t ≡ (waiting io, t))
        ⊎ ((handled : Bool) × (b : Buffers) × (handle_shared_buffer_io io
                (mapping_size H K t)
                (buffers_of H K t)
              ≡ returned handled b)
            × (serve_shared H K io t ≡ after_io H K handled (with_buffers b t)))
  unfolding serve_shared
  serve_shared_cases io t =
      elim (Outcome-cases (handle_shared_buffer_io io (mapping_size H K t) (buffers_of H K t))) [
        | inl e ↦ inl (ground arith)
        | inr (handled, b, e) ↦ inr (handled, b, e, ground arith)
      ]

  pub serve_io_cases :
      (io : Io) (input : Option ℕ) (t : Thread H K)
      → (serve_io H K io input t ≡ serve_file H K io t)
        ⊎ ((serve_io H K io input t ≡ serve_shared H K io t)
            ⊎ (serve_io H K io input t ≡ serve_serial H K io input t))
  unfolding serve_io
  serve_io_cases io input t = ground arith

  pub serve_window_cases :
      (t : Thread H K)
      → ((0 < t.interrupt_count) × (serve_window H K t ≡ inject H K t))
        ⊎ (serve_window H K t ≡ (running, with_window H K t))
  unfolding serve_window
  serve_window_cases t = ground arith

  abbrev pub after_interrupt : Thread H K → Thread H K
  after_interrupt t = record t { kernel = (K.interrupt t.kernel t.vm.vcpu_fd irq_num).0 }

  pub inject_cases :
      (t : Thread H K)
      → ((is_neg (K.interrupt t.kernel t.vm.vcpu_fd irq_num).1 ≡ true)
          × (inject H K t
              ≡ stop H K false
                  (print_error H K "Failed to inject an interrupt" (after_interrupt t))))
        ⊎ ((is_neg (K.interrupt t.kernel t.vm.vcpu_fd irq_num).1 ≡ false)
            × (inject H K t ≡ (
              running,
              with_window H K
                  (record (after_interrupt t) { interrupt_count = t.interrupt_count - 1 }),
            )))
  unfolding inject inject_irq
  inject_cases t = ground arith

  -- A flush prints the buffer as one line, if it holds anything.
  pub flush_cases :
      (finish : Bool) (t : Thread H K)
      → ((t.serial_output_buffer ≡ []) × (flush_serial_output H K finish t ≡ t))
        ⊎ ((line : Line) × (line.text ≡ t.serial_output_buffer)
            × (flush_serial_output H K finish t
                ≡ record t { printed = t.printed ++ line ∷ []; serial_output_buffer = [] }))
  unfolding flush_serial_output
  flush_cases finish t = go t.serial_output_buffer refl
    where
      go :
          (b : List ℕ)
          → t.serial_output_buffer ≡ b
          → ((t.serial_output_buffer ≡ []) × (flush_serial_output H K finish t ≡ t))
            ⊎ ((line : Line) × (line.text ≡ t.serial_output_buffer)
                × (flush_serial_output H K finish t
                    ≡ record t { printed = t.printed ++ line ∷ []; serial_output_buffer = [] }))
      go [] e = inl (e, ground arith)
      go (c ∷ cs) e = inr (
        record { text = c ∷ cs; finished_line = finish && not (ends_line (c ∷ cs)) },
        sym e,
        ground arith,
      )

  pub flush-empty :
      (finish : Bool) (t : Thread H K)
      → (flush_serial_output H K finish t).serial_output_buffer ≡ []
  flush-empty finish t = elim (flush_cases finish t) [
    | inl (empty, e) ↦ ap (λ (x : Thread H K). x.serial_output_buffer) e ∙ empty
    | inr (line, own, e) ↦ ap (λ (x : Thread H K). x.serial_output_buffer) e
  ]
