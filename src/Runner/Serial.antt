-- ===== src/Runner/Serial.antt =====
-- host/src/vm_runner.cpp, `flushSerialOutput` and `handleSerialIo`: the serial console of a VM.
use kvm_hypervisor.Base.{
  ℕ, Bool, true, false, not, ◌&&◌, ◌||◌, Option, none, some, List, [], ◌∷◌, ◌++◌, leb, ◌==◌,
  if◌then◌else◌,
}
use kvm_hypervisor.Base.Memory.{store}
use kvm_hypervisor.Exit.{Io, is_in, is_out}
use kvm_hypervisor.FileIo.Host.{Host}
use kvm_hypervisor.Machine.Kernel.{KernelInterface}
use kvm_hypervisor.Runner.State.{Thread, say, print_error, unexpected_io}

abbrev pub serial_port : ℕ
serial_port = 0xE9

abbrev pub line_feed : ℕ
line_feed = 10

-- `back() == '\n'`.
abbrev pub ends_line : List ℕ → Bool
ends_line [] = false
ends_line (c ∷ []) = c == line_feed
ends_line (c ∷ d ∷ cs) = ends_line (d ∷ cs)

module _ (H : Host) (K : KernelInterface) where
  unfoldable pub flush_serial_output : Bool → Thread H K → Thread H K
  flush_serial_output finish_line t = elim t.serial_output_buffer [
    | [] ↦ t
    | c ∷ cs ↦ record t {
      printed =
          t.printed
          ++ (record { text = c ∷ cs; finished_line = finish_line && not (ends_line (c ∷ cs)) })
            ∷ [];
      serial_output_buffer = [];
    }
  ]

  unfoldable pub put_character : ℕ → Thread H K → Thread H K
  unfolding flush_serial_output
  put_character c t =
      let t1 = record t { serial_output_buffer = t.serial_output_buffer ++ c ∷ [] } in
      if c == line_feed then flush_serial_output false t1 else t1

  unfoldable pub get_character : ℕ → Option ℕ → Thread H K → Thread H K × Bool
  unfolding flush_serial_output
  get_character data_at input t =
      let t1 = flush_serial_output true t in
      elim input [
        | none ↦ (print_error H K "Failed to read serial input" t1, false)
        | some c ↦ (record t1 { area = store t1.area data_at c }, true)
      ]

  unfoldable pub handle_serial_io : Io → ℕ → Option ℕ → Thread H K → Thread H K × Bool
  unfolding put_character get_character
  handle_serial_io io mapping_size input t =
      if not (io.port == serial_port) || not (io.size == 1) || not (io.count == 1)
      then (say H K (unexpected_io io) t, false)
      else if leb mapping_size io.data_offset
      then (print_error H K "I/O data offset is outside the KVM run mapping" t, false)
      else if is_out io.direction
      then (put_character (t.area io.data_offset) t, true)
      else if is_in io.direction
      then get_character io.data_offset input t
      else (print_error H K "Unexpected I/O direction" t, false)
