-- ===== src/Runner/Printed.antt =====
-- host/src/vm_runner.cpp: what a run has printed of its guest's text.
use kvm_hypervisor.Base.{ℕ, ◌≡◌, ◌∙◌, sym, subst, ap, arith, true, List, [], ◌∷◌, ◌++◌}
use mathlib.Core.List.{append-nil, append_assoc}
use kvm_hypervisor.FileIo.Host.{Host}
use kvm_hypervisor.Machine.Kernel.{KernelInterface}
use kvm_hypervisor.Startup.{ImageFile}
use kvm_hypervisor.Runner.State.{Thread, Event, Status, finished}
use kvm_hypervisor.Runner.EndsWell.{EndsWell, serve-EndsWell, boot-EndsWell}
use kvm_hypervisor.Runner.Text.{printed_text, text, said_by_event, serve-text}
use kvm_hypervisor.Runner.{boot, run_virtual_machine, mapping_size, stop, serve, run_events}

module _ (H : Host) (K : KernelInterface) where
  -- What the guest says in the whole of a run.
  abbrev pub run_said : List Event → Status → Thread H K → List ℕ
  run_said [] status t = []
  run_said (e ∷ events) status t =
      said_by_event H K (mapping_size H K t) status e
      ++ run_said events (serve H K status e t).0 (serve H K status e t).1

  run_events-text :
      (events : List Event) (status : Status) (t : Thread H K)
      → text H K (run_events H K events status t).1 ≡ text H K t ++ run_said events status t
  unfolding run_events
  run_events-text [] status t = sym (append-nil (text H K t))
  run_events-text (e ∷ events) status t =
      let (status1, t1) = serve H K status e t in
      run_events-text events status1 t1
      ∙ ap (◌++ run_said events status1 t1) (serve-text H K status e t)
      ∙ append_assoc (text H K t) (said_by_event H K (mapping_size H K t) status e)
          (run_said events status1 t1)

  run_events-EndsWell :
      (events : List Event) (status : Status) (t : Thread H K)
      → EndsWell H K (status, t)
      → EndsWell H K (run_events H K events status t)
  unfolding run_events
  run_events-EndsWell [] status t well = well
  run_events-EndsWell (e ∷ events) status t well =
      run_events-EndsWell events (serve H K status e t).0 (serve H K status e t).1
        (serve-EndsWell H K status e t well)

  boot-text :
      (image : ImageFile) (memory_size page_size : ℕ) (t : Thread H K)
      → text H K (boot H K image memory_size page_size t).1 ≡ text H K t
  unfolding boot stop
  boot-text image memory_size page_size t = ground arith

  -- At every point of a run, what was printed of the guest's text and what is buffered are together
  -- what they were before it and then each byte that the guest has sent to the serial port, in order
  -- and once.
  pub run_virtual_machine-keeps_text :
      (image : ImageFile) (memory_size page_size : ℕ) (events : List Event) (t : Thread H K)
      → let (booted, t1) = boot H K image memory_size page_size t in
        let t' = (run_virtual_machine H K image memory_size page_size events t).1 in
        printed_text t'.printed ++ t'.serial_output_buffer
        ≡ (printed_text t.printed ++ t.serial_output_buffer) ++ run_said events booted t1
  unfolding run_virtual_machine
  run_virtual_machine-keeps_text image memory_size page_size events t =
      let (booted, t1) = boot H K image memory_size page_size t in
      run_events-text events booted t1
      ∙ ap (◌++ run_said events booted t1) (boot-text image memory_size page_size t)

  run_virtual_machine-EndsWell :
      (image : ImageFile) (memory_size page_size : ℕ) (events : List Event) (t : Thread H K)
      → EndsWell H K (run_virtual_machine H K image memory_size page_size events t)
  unfolding run_virtual_machine
  run_virtual_machine-EndsWell image memory_size page_size events t =
      let (booted, t1) = boot H K image memory_size page_size t in
      run_events-EndsWell events booted t1 (boot-EndsWell H K image memory_size page_size t).0

  -- When a machine has completed, the printed text is what was printed or buffered before its run and
  -- then each byte that the guest has sent to the serial port, in order and once.
  pub run_virtual_machine-prints :
      (image : ImageFile) (memory_size page_size : ℕ) (events : List Event) (t t' : Thread H K)
      → run_virtual_machine H K image memory_size page_size events t ≡ (finished true, t')
      → let (booted, t1) = boot H K image memory_size page_size t in
        printed_text t'.printed
        ≡ (printed_text t.printed ++ t.serial_output_buffer) ++ run_said events booted t1
  run_virtual_machine-prints image memory_size page_size events t t' h =
      let (flag, empty) =
        subst (EndsWell H K) h
          (run_virtual_machine-EndsWell image memory_size page_size events t) in
      sym (append-nil (printed_text t'.printed))
      ∙ sym (ap (◌++◌ (printed_text t'.printed)) empty)
      ∙ sym (ap (λ (r : Status × Thread H K). text H K r.1) h)
      ∙ run_virtual_machine-keeps_text image memory_size page_size events t
