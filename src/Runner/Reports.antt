-- ===== src/Runner/Reports.antt =====
-- host/src/vm_runner.cpp: what a thread reports, and what its serial console reports.
use kvm_hypervisor.Base.{
  ℕ, ◌≡◌, ◌∙◌, ◌⊎◌, inl, inr, refl, sym, subst, ap, arith, Bool, true, false, Option, none, some,
  List, [], ◌∷◌, ◌++◌,
}
use mathlib.Core.List.{append_assoc}
use kvm_hypervisor.Exit.{Io}
use kvm_hypervisor.FileIo.Host.{Host}
use kvm_hypervisor.Machine.Kernel.{KernelInterface}
use kvm_hypervisor.Runner.State.{
  Thread, Status, running, waiting, finished, Message, error_message, system_error, unexpected_io,
  unexpected_exit, halt_message, say, print_error,
}
use kvm_hypervisor.Runner.Serial.{
  flush_serial_output, handle_serial_io, put_character, get_character,
}
use kvm_hypervisor.Runner.{stop, after_io}

-- A report that something has gone wrong.
abbrev pub IsFailure : Message → Type 0
IsFailure (error_message text) = Unit
IsFailure (system_error text) = Unit
IsFailure (unexpected_io io) = Unit
IsFailure (unexpected_exit reason) = Unit
IsFailure halt_message = ⊥

-- One message or two, each the report of a failure.
abbrev pub AreFailures : List Message → Type 0
AreFailures [] = ⊥
AreFailures (m ∷ []) = IsFailure m
AreFailures (m ∷ n ∷ []) = IsFailure m × IsFailure n
AreFailures (m ∷ n ∷ l ∷ ms) = ⊥

module _ (H : Host) (K : KernelInterface) where
  -- What a thread has said since these messages, by how far its machine is.
  abbrev pub IsReported : List Message → Status × Thread H K → Type 0
  IsReported before (running, t) = t.messages ≡ before
  IsReported before (waiting io, t) = t.messages ≡ before
  IsReported before (finished true, t) = t.messages ≡ before ++ halt_message ∷ []
  IsReported before (finished false, t) =
      (ms : List Message) × AreFailures ms × (t.messages ≡ before ++ ms)

  pub flush-messages :
      (finish : Bool) (t : Thread H K) → (flush_serial_output H K finish t).messages ≡ t.messages
  unfolding flush_serial_output
  flush-messages finish t = ground arith

  -- The end of a machine behind one report.
  pub stop-IsReported :
      (before : List Message) (m : Message) (t : Thread H K)
      → IsFailure m
      → t.messages ≡ before
      → IsReported before (stop H K false (say H K m t))
  unfolding stop
  stop-IsReported before m t bad e = (m ∷ [], bad, ap (λ x. x ++ m ∷ []) e)

  -- Of a handler: it has said nothing, or it has failed and said why.
  abbrev Handled : List Message → Bool → Thread H K → Type 0
  Handled before handled t =
      (t.messages ≡ before)
      ⊎ ((handled ≡ false) × ((m : Message) × IsFailure m × (t.messages ≡ before ++ m ∷ [])))

  pub after_io-IsReported :
      (before : List Message) (handled : Bool) (t : Thread H K)
      → Handled before handled t
      → IsReported before (after_io H K handled t)
  unfolding after_io stop
  after_io-IsReported before true t (inl e) = e
  after_io-IsReported before true t (inr (h, (m, bad, e))) = cc
  after_io-IsReported before false t (inl e) =
      stop-IsReported before _ (flush_serial_output H K true t) tt (flush-messages true t ∙ e)
  after_io-IsReported before false t (inr (h, (m, bad, e))) = (
    m ∷ error_message "Failed to handle an I/O exit" ∷ [],
    (bad, tt),
    ap (λ x. x ++ error_message "Failed to handle an I/O exit" ∷ []) (flush-messages true t ∙ e)
        ∙ append_assoc before (m ∷ []) _,
  )

  put_character-messages : (c : ℕ) (t : Thread H K) → (put_character H K c t).messages ≡ t.messages
  unfolding put_character
  put_character-messages c t = ground (
    arith,
    flush-messages false (record t { serial_output_buffer = t.serial_output_buffer ++ c ∷ [] }),
  )

  get_character-Handled :
      (data_at : ℕ) (input : Option ℕ) (t : Thread H K)
      → Handled t.messages
          (get_character H K data_at input t).1
          (get_character H K data_at input t).0
  unfolding get_character
  get_character-Handled data_at none t = inr (
    refl,
    (
      error_message "Failed to read serial input",
      tt,
      ap (λ x. x ++ error_message "Failed to read serial input" ∷ []) (flush-messages true t),
    ),
  )
  get_character-Handled data_at (some c) t = inl (flush-messages true t)

  handle_serial_io_cases :
      (io : Io) (size : ℕ) (input : Option ℕ) (t : Thread H K)
      → (handle_serial_io H K io size input t ≡ (say H K (unexpected_io io) t, false))
        ⊎ ((handle_serial_io H K io size input t
              ≡ (print_error H K "I/O data offset is outside the KVM run mapping" t, false))
            ⊎ ((handle_serial_io H K io size input t
                  ≡ (print_error H K "Unexpected I/O direction" t, false))
                ⊎ ((handle_serial_io H K io size input t
                      ≡ (put_character H K (t.area io.data_offset) t, true))
                    ⊎ (handle_serial_io H K io size input t
                        ≡ get_character H K io.data_offset input t))))
  unfolding handle_serial_io
  handle_serial_io_cases io size input t = ground arith

  -- The serial console says why where it fails.
  pub handle_serial_io-Handled :
      (io : Io) (size : ℕ) (input : Option ℕ) (t : Thread H K)
      → Handled t.messages
          (handle_serial_io H K io size input t).1
          (handle_serial_io H K io size input t).0
  handle_serial_io-Handled io size input t = elim (handle_serial_io_cases io size input t) [
    | inl e ↦ said (unexpected_io io) tt e
    | inr (inl e) ↦ said _ tt e
    | inr (inr (inl e)) ↦ said _ tt e
    | inr (inr (inr (inl e))) ↦
        subst (λ r. Handled t.messages r.1 r.0) (sym e)
          (inl (put_character-messages (t.area io.data_offset) t))
    | inr (inr (inr (inr e))) ↦
        subst (λ r. Handled t.messages r.1 r.0) (sym e)
          (get_character-Handled io.data_offset input t)
  ]
    where
      said :
          (m : Message)
          → IsFailure m
          → handle_serial_io H K io size input t ≡ (say H K m t, false)
          → Handled t.messages
              (handle_serial_io H K io size input t).1
              (handle_serial_io H K io size input t).0
      said m bad e = subst (λ r. Handled t.messages r.1 r.0) (sym e) (inr (refl, (m, bad, refl)))
