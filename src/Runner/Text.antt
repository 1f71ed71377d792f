-- ===== src/Runner/Text.antt =====
-- host/src/vm_runner.cpp: the text that a guest writes to its serial port and the text that is printed.
use kvm_hypervisor.Base.{
  ℕ, ◌≡◌, ◌∙◌, inl, inr, refl, sym, ap, arith, Bool, true, false, ◌&&◌, Option, List, [], ◌∷◌, ◌++◌,
  ltb, ◌==◌, if◌then◌else◌,
}
use mathlib.Core.List.{append-nil, append_assoc}
use kvm_hypervisor.Base.Memory.{Memory}
use kvm_hypervisor.Exit.{
  exit_io, exit_irq_window_open, exit_hlt, exit_shutdown, exit_other, Io, is_out,
}
use kvm_hypervisor.FileIo.Host.{Host}
use kvm_hypervisor.Machine.Kernel.{KernelInterface}
use kvm_hypervisor.Runner.State.{
  Thread, Line, Event, RunAnswer, interrupted, run_failed, exited, Status, running, waiting,
  finished,
}
use kvm_hypervisor.Runner.Serial.{
  serial_port, flush_serial_output, put_character, get_character, handle_serial_io,
}
use kvm_hypervisor.Runner.Cases.{serve_file_cases, serve_shared_cases, with_buffers, flush_cases}
use kvm_hypervisor.Runner.{
  mapping_size, with_memory, stop, after_io, serve_file, serve_shared, serve_serial, serve_io,
  serve_window, serve_halt, serve_exit, serve_answer, serve,
}

-- The guest's own text in what was printed.
unfoldable pub printed_text : List Line → List ℕ
printed_text [] = []
printed_text (line ∷ lines) = line.text ++ printed_text lines

printed_text-append :
    (xs ys : List Line) → printed_text (xs ++ ys) ≡ printed_text xs ++ printed_text ys
unfolding printed_text
printed_text-append [] ys = refl
printed_text-append (x ∷ xs) ys =
    ap (◌++◌ x.text) (printed_text-append xs ys)
    ∙ sym (append_assoc x.text (printed_text xs) (printed_text ys))

-- The byte that an exit writes to the serial port, by the I/O description: a write of one byte at the
-- port whose datum lies inside the mapping.
abbrev pub said_by : Io → ℕ → Memory → List ℕ
said_by io mapping_size area =
    if io.port == serial_port
      && io.size == 1
      && io.count == 1
      && ltb io.data_offset mapping_size
      && is_out io.direction
    then area io.data_offset ∷ []
    else []

module _ (H : Host) (K : KernelInterface) where
  -- What was printed of the guest's text, and what is buffered.
  abbrev pub text : Thread H K → List ℕ
  text t = printed_text t.printed ++ t.serial_output_buffer

  flush-text : (finish : Bool) (t : Thread H K) → text (flush_serial_output H K finish t) ≡ text t
  unfolding printed_text
  flush-text finish t = elim (flush_cases H K finish t) [
    | inl (empty, e) ↦ ap text e
    | inr (line, own, e) ↦
        ap text e
        ∙ append-nil (printed_text (t.printed ++ line ∷ []))
        ∙ printed_text-append t.printed (line ∷ [])
        ∙ ap (◌++◌ (printed_text t.printed)) (append-nil line.text ∙ own)
  ]

  put_character-text : (c : ℕ) (t : Thread H K) → text (put_character H K c t) ≡ text t ++ c ∷ []
  unfolding put_character
  put_character-text c t =
      let t1 = record t { serial_output_buffer = t.serial_output_buffer ++ c ∷ [] } in
      let e : text t1 ≡ text t ++ c ∷ [] =
        sym (append_assoc (printed_text t.printed) t.serial_output_buffer (c ∷ [])) in
      ground (arith, e, flush-text false t1)

  get_character-text :
      (data_at : ℕ) (input : Option ℕ) (t : Thread H K)
      → text (get_character H K data_at input t).0 ≡ text t
  unfolding get_character
  get_character-text data_at input t = ground (arith, flush-text true t)

  handle_serial_io-text :
      (io : Io) (size : ℕ) (input : Option ℕ) (t : Thread H K)
      → text (handle_serial_io H K io size input t).0 ≡ text t ++ said_by io size t.area
  unfolding handle_serial_io
  handle_serial_io-text io size input t = ground (
    arith,
    append-nil (text t),
    put_character-text (t.area io.data_offset) t,
    get_character-text io.data_offset input t,
  )

  abbrev text_of : Status × Thread H K → List ℕ
  text_of (status, t) = text t

  after_io-text : (handled : Bool) (t : Thread H K) → text (after_io H K handled t).1 ≡ text t
  unfolding after_io stop
  after_io-text true t = refl
  after_io-text false t = flush-text true t

  serve_file-text : (io : Io) (t : Thread H K) → text (serve_file H K io t).1 ≡ text t
  serve_file-text io t = elim (serve_file_cases H K io t) [
    | inl e ↦ ap text_of e ∙ after_io-text false t
    | inr (world, area, called, e) ↦ ap text_of e
  ]

  serve_shared-text : (io : Io) (t : Thread H K) → text (serve_shared H K io t).1 ≡ text t
  serve_shared-text io t = elim (serve_shared_cases H K io t) [
    | inl e ↦ ap text_of e
    | inr (handled, b, called, e) ↦ ap text_of e ∙ after_io-text handled (with_buffers H K b t)
  ]

  serve_serial-text :
      (io : Io) (input : Option ℕ) (t : Thread H K)
      → text (serve_serial H K io input t).1 ≡ text t ++ said_by io (mapping_size H K t) t.area
  unfolding serve_serial
  serve_serial-text io input t =
      let (t1, handled) = handle_serial_io H K io (mapping_size H K t) input t in
      after_io-text handled t1 ∙ handle_serial_io-text io (mapping_size H K t) input t

  serve_io-text :
      (io : Io) (input : Option ℕ) (t : Thread H K)
      → text (serve_io H K io input t).1 ≡ text t ++ said_by io (mapping_size H K t) t.area
  unfolding serve_io
  serve_io-text io input t = ground (
    arith,
    append-nil (text t),
    serve_file-text io t,
    serve_shared-text io t,
    serve_serial-text io input t,
  )

  serve_window-text : (t : Thread H K) → text (serve_window H K t).1 ≡ text t
  unfolding serve_window stop
  serve_window-text t = ground arith

  serve_halt-text : (t : Thread H K) → text (serve_halt H K t).1 ≡ text t
  unfolding serve_halt stop
  serve_halt-text t = ground (arith, flush-text true t)

  -- What an answer of KVM_RUN, and an event, make the guest say.
  abbrev pub said_by_answer : ℕ → RunAnswer → List ℕ
  said_by_answer size (exited exit_io io area mem) = said_by io size area
  said_by_answer size (exited exit_irq_window_open io area mem) = []
  said_by_answer size (exited exit_hlt io area mem) = []
  said_by_answer size (exited exit_shutdown io area mem) = []
  said_by_answer size (exited (exit_other n) io area mem) = []
  said_by_answer size interrupted = []
  said_by_answer size run_failed = []

  abbrev pub said_by_event : ℕ → Status → Event → List ℕ
  said_by_event size running e = said_by_answer size e.answer
  said_by_event size (waiting io) e = []
  said_by_event size (finished result) e = []

  serve_answer-text :
      (answer : RunAnswer) (input : Option ℕ) (t : Thread H K)
      → text (serve_answer H K answer input t).1
        ≡ text t ++ said_by_answer (mapping_size H K t) answer
  unfolding serve_answer serve_exit stop
  serve_answer-text interrupted input t = sym (append-nil (text t))
  serve_answer-text run_failed input t = sym (append-nil (text t))
  serve_answer-text (exited exit_io io area mem) input t =
      serve_io-text io input (with_memory H K area mem t)
  serve_answer-text (exited exit_irq_window_open io area mem) input t =
      serve_window-text (with_memory H K area mem t) ∙ sym (append-nil (text t))
  serve_answer-text (exited exit_hlt io area mem) input t =
      serve_halt-text (with_memory H K area mem t) ∙ sym (append-nil (text t))
  serve_answer-text (exited exit_shutdown io area mem) input t =
      flush-text true (with_memory H K area mem t) ∙ sym (append-nil (text t))
  serve_answer-text (exited (exit_other n) io area mem) input t =
      flush-text true (with_memory H K area mem t) ∙ sym (append-nil (text t))

  pub serve-text :
      (status : Status) (e : Event) (t : Thread H K)
      → text (serve H K status e t).1 ≡ text t ++ said_by_event (mapping_size H K t) status e
  unfolding serve
  serve-text running e t = serve_answer-text e.answer e.input (record t { shared = e.shared })
  serve-text (waiting io) e t =
      serve_shared-text io (record t { shared = e.shared }) ∙ sym (append-nil (text t))
  serve-text (finished result) e t = sym (append-nil (text t))
