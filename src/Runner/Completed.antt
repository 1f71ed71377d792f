-- ===== src/Runner/Completed.antt =====
-- host/src/vm_runner.cpp: what has happened to a machine for which `runVirtualMachine` returns true.
use kvm_hypervisor.Base.{
  ℕ, ◌≡◌, ◌⊎◌, ◌∙◌, inl, inr, refl, sym, subst, ap, arith, Bool, true, false, Option, List, [], ◌∷◌,
  ◌++◌,
}
use kvm_hypervisor.Exit.{
  ExitReason, exit_io, exit_irq_window_open, exit_hlt, exit_shutdown, exit_other, Io,
}
use kvm_hypervisor.FileIo.Host.{Host}
use kvm_hypervisor.Base.Memory.{Memory}
use kvm_hypervisor.SharedBuffer.{handle_shared_buffer_io}
use kvm_hypervisor.SharedBuffer.State.{SharedBufferVmState, Buffers, returned}
use kvm_hypervisor.SharedBuffer.TransferEnd.{IsTransferEnd, handle_shared_buffer_io-Marks}
use kvm_hypervisor.Machine.Kernel.{KernelInterface}
use kvm_hypervisor.Startup.{ImageFile}
use kvm_hypervisor.Runner.State.{
  Thread, Event, RunAnswer, interrupted, run_failed, exited, Status, running, waiting, finished,
}
use kvm_hypervisor.Runner.Serial.{handle_serial_io}
use kvm_hypervisor.Runner.Cases.{serve_file_cases, serve_shared_cases, serve_io_cases, with_buffers}
use kvm_hypervisor.Runner.EndsWell.{EndsWell, flush-own, serve-EndsWell, boot-EndsWell}
use kvm_hypervisor.Runner.{
  boot, run_virtual_machine, mapping_size, buffers_of, with_memory, stop, after_io, serve_file,
  serve_shared, serve_serial, serve_window, serve_halt, serve_exit, serve_answer, serve, run_events,
}

module _ (H : Host) (K : KernelInterface) where
  handle_serial_io-own :
      (io : Io) (size : ℕ) (input : Option ℕ) (t : Thread H K)
      → (handle_serial_io H K io size input t).0.own ≡ t.own
  unfolding handle_serial_io
  handle_serial_io-own io size input t = ground arith

  after_io-own : (handled : Bool) (t : Thread H K) → (after_io H K handled t).1.own ≡ t.own
  unfolding after_io stop
  after_io-own true t = refl
  after_io-own false t = flush-own H K true t

  abbrev flag_of : Status × Thread H K → Bool
  flag_of (status, t) = t.own.transfer_completed

  -- The shared buffer's handler takes the request and ends the transfer, and leaves the given state of
  -- the VM.
  abbrev IsServed : Io → Thread H K → SharedBufferVmState → Type 0
  IsServed io t own =
      (handled : Bool) × (b : Buffers) × (handle_shared_buffer_io io (mapping_size H K t)
          (buffers_of H K t)
        ≡ returned handled b)
      × IsTransferEnd (buffers_of H K t) b
      × (own ≡ b.own)

  serve_shared-Marks :
      (io : Io) (t : Thread H K)
      → (flag_of (serve_shared H K io t) ≡ t.own.transfer_completed)
        ⊎ IsServed io t (serve_shared H K io t).1.own
  serve_shared-Marks io t = elim (serve_shared_cases H K io t) [
    | inl e ↦ inl (ap flag_of e)
    | inr (handled, b, called, e) ↦
        let own : (serve_shared H K io t).1.own ≡ b.own =
          ap (λ (x : Status × Thread H K). x.1.own) e
          ∙ after_io-own handled (with_buffers H K b t) in
        elim (handle_shared_buffer_io-Marks io (mapping_size H K t) (buffers_of H K t) called) [
          | inl same ↦ inl (ap (λ (x : SharedBufferVmState). x.transfer_completed) own ∙ same)
          | inr ends ↦ inr (handled, b, called, ends, own)
        ]
  ]

  serve_file-own : (io : Io) (t : Thread H K) → (serve_file H K io t).1.own ≡ t.own
  serve_file-own io t = elim (serve_file_cases H K io t) [
    | inl e ↦ ap (λ (x : Status × Thread H K). x.1.own) e ∙ after_io-own false t
    | inr (world, area, called, e) ↦ ap (λ (x : Status × Thread H K). x.1.own) e
  ]

  serve_serial-own :
      (io : Io) (input : Option ℕ) (t : Thread H K) → (serve_serial H K io input t).1.own ≡ t.own
  unfolding serve_serial
  serve_serial-own io input t =
      let (t1, handled) = handle_serial_io H K io (mapping_size H K t) input t in
      after_io-own handled t1 ∙ handle_serial_io-own io (mapping_size H K t) input t

  serve_window-own : (t : Thread H K) → (serve_window H K t).1.own ≡ t.own
  unfolding serve_window stop
  serve_window-own t = ground arith

  serve_halt-own : (t : Thread H K) → (serve_halt H K t).1.own ≡ t.own
  unfolding serve_halt stop
  serve_halt-own t = ground (arith, flush-own H K true t)

  serve_exit-Marks :
      (reason : ExitReason) (io : Io) (input : Option ℕ) (t : Thread H K)
      → (flag_of (serve_exit H K reason io input t) ≡ t.own.transfer_completed)
        ⊎ ((reason ≡ exit_io) × IsServed io t (serve_exit H K reason io input t).1.own)
  unfolding serve_exit stop
  serve_exit-Marks exit_io io input t = elim (serve_io_cases H K io input t) [
    | inl e ↦ inl (
        ap flag_of e ∙ ap (λ (x : SharedBufferVmState). x.transfer_completed) (serve_file-own io t))
    | inr (inl e) ↦ elim (serve_shared-Marks io t) [
      | inl same ↦ inl (ap flag_of e ∙ same)
      | inr ends ↦
          inr (refl, subst (λ (x : Status × Thread H K). IsServed io t x.1.own) (sym e) ends)
    ]
    | inr (inr e) ↦ inl (
        ap flag_of e
        ∙ ap (λ (x : SharedBufferVmState). x.transfer_completed) (serve_serial-own io input t))
  ]
  serve_exit-Marks exit_irq_window_open io input t =
      inl (ap (λ (x : SharedBufferVmState). x.transfer_completed) (serve_window-own t))
  serve_exit-Marks exit_hlt io input t =
      inl (ap (λ (x : SharedBufferVmState). x.transfer_completed) (serve_halt-own t))
  serve_exit-Marks exit_shutdown io input t =
      inl (ap (λ (x : SharedBufferVmState). x.transfer_completed) (flush-own H K true t))
  serve_exit-Marks (exit_other n) io input t =
      inl (ap (λ (x : SharedBufferVmState). x.transfer_completed) (flush-own H K true t))

  -- An event puts a request, with the area that holds its data: an I/O exit, or one more look of a
  -- request that waits.
  abbrev pub IsRequest : Status → Event → Thread H K → Io → Memory → Type 0
  IsRequest status e t io area =
      ((status ≡ running) × (mem : Memory) × (e.answer ≡ exited exit_io io area mem))
      ⊎ ((status ≡ waiting io) × (area ≡ t.area))

  -- The event puts a request that the shared buffer's handler takes, on the shared state that the event
  -- finds and the thread's own, for which no transfer is completed; the request ends the transfer, and
  -- the thread is left with the handler's state, in which it is completed.
  abbrev pub EndsTransfer : Status → Event → Thread H K → Type 0
  EndsTransfer status e t =
      (io : Io) × (area : Memory) × (handled : Bool) × (b : Buffers) × IsRequest status e t io area
      × (handle_shared_buffer_io io (mapping_size H K t)
            (record { shared = e.shared; own = t.own; area = area })
          ≡ returned handled b)
      × IsTransferEnd (record { shared = e.shared; own = t.own; area = area }) b
      × ((serve H K status e t).1.own ≡ b.own)

  serve-Marks :
      (status : Status) (e : Event) (t : Thread H K)
      → (flag_of (serve H K status e t) ≡ t.own.transfer_completed) ⊎ EndsTransfer status e t
  unfolding serve serve_answer stop
  serve-Marks running e t = go e.answer refl
    where
      go :
          (answer : RunAnswer)
          → e.answer ≡ answer
          → (flag_of (serve H K running e t) ≡ t.own.transfer_completed) ⊎ EndsTransfer running e t
      go interrupted q = inl (ground arith)
      go run_failed q = inl (ground arith)
      go (exited reason io area mem) q =
          let t1 = with_memory H K area mem (record t { shared = e.shared }) in
          let same : serve H K running e t ≡ serve_exit H K reason io e.input t1 = ground arith in
          elim (serve_exit-Marks reason io e.input t1) [
            | inl kept ↦ inl (ap flag_of same ∙ kept)
            | inr (is_io, (handled, b, called, ends, own)) ↦ inr (
              io,
              area,
              handled,
              b,
              inl (refl, mem, q ∙ ap (λ r. exited r io area mem) is_io),
              called,
              ends,
              ap (λ (x : Status × Thread H K). x.1.own) same ∙ own,
            )
          ]
  serve-Marks (waiting io) e t = elim (serve_shared-Marks io (record t { shared = e.shared })) [
    | inl same ↦ inl same
    | inr (handled, b, called, ends, own) ↦
        inr (io, t.area, handled, b, inr (refl, refl), called, ends, own)
  ]
  serve-Marks (finished result) e t = inl refl

  -- The point of a run at which a request ends the transfer that is not completed before.
  abbrev pub HasTransferEnd : List Event → Status → Thread H K → Type 0
  HasTransferEnd events status t =
      (before : List Event) × (e : Event) × (after : List Event) × (events ≡ before ++ e ∷ after)
      × ((run_events H K before status t).1.own.transfer_completed ≡ false)
      × EndsTransfer (run_events H K before status t).0 e (run_events H K before status t).1

  run_events-Completed :
      (events : List Event) (status : Status) (t t' : Thread H K)
      → EndsWell H K (status, t)
      → t.own.transfer_completed ≡ false
      → run_events H K events status t ≡ (finished true, t')
      → HasTransferEnd events status t
  unfolding run_events
  run_events-Completed [] status t t' well unset h =
      absurd (ground (arith, subst (EndsWell H K) h well, h))
  run_events-Completed (e ∷ events) status t t' well unset h =
      let (status1, t1) = serve H K status e t in
      elim (serve-Marks status e t) [
        | inr ends ↦ ([], e, events, refl, unset, ends)
        | inl same ↦
            let (before, e1, after, split, open_yet, ends) =
              run_events-Completed events status1 t1 t' (serve-EndsWell H K status e t well)
                (same ∙ unset) h in
            (e ∷ before, e1, after, ap (◌∷◌ e) split, open_yet, ends)
      ]

  -- A machine for which `runVirtualMachine` returns true, from a start at which no transfer had been
  -- completed, has met an event with a request that the shared buffer's handler took and that changed
  -- the flag of the completed transfer from false to true: as the writer, which closed its published
  -- round with all readers' acknowledgements, or as a reader at the end of the current generation's
  -- data, whose acknowledgement of that generation was counted.
  pub run_virtual_machine-HasTransferEnd :
      (image : ImageFile) (memory_size page_size : ℕ) (events : List Event) (t t' : Thread H K)
      → t.own.transfer_completed ≡ false
      → run_virtual_machine H K image memory_size page_size events t ≡ (finished true, t')
      → let (status, t1) = boot H K image memory_size page_size t in HasTransferEnd events status t1
  unfolding run_virtual_machine
  run_virtual_machine-HasTransferEnd image memory_size page_size events t t' unset h =
      let (status, t1) = boot H K image memory_size page_size t in
      let (well, own) = boot-EndsWell H K image memory_size page_size t in
      run_events-Completed events status t1 t' well
        (ap (λ (x : SharedBufferVmState). x.transfer_completed) own ∙ unset) h
