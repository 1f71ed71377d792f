-- ===== src/Guest/Start.antt =====
-- guest/src/main.c: the guest's run, from its segment descriptors to its halt. The processor's part in it
-- is inline assembly, and left out: the loading of the tables and segments, `sti`, `pause`, `ud2`
-- and `hlt`. An interrupt arrives while the guest waits for its communication.
use kvm_hypervisor.Base.{ℕ, zero, suc, ◌+◌, Bool, not, ◌&&◌, [], ◌∷◌, ◌==◌, if◌then◌else◌}
use kvm_hypervisor.Base.Int.{is_negative}
use kvm_hypervisor.Base.Memory.{store}
use kvm_hypervisor.Protocol.{file_open_read_write, file_open_create, file_seek_set}
use kvm_hypervisor.Guest.Ports.{Ports}
use kvm_hypervisor.Guest.File.{open_path, close, read, write, lseek}
use kvm_hypervisor.Guest.Interrupts.{
  Layout, Statics, initial_statics, irq0_handler, serial_write, when, communication_finished,
  communication_succeeded,
}

pub record GdtEntry : Type 0 where
  pub limit_low : ℕ
  pub base_low : ℕ
  pub base_mid : ℕ
  pub access : ℕ
  pub flags_limit : ℕ
  pub base_high : ℕ

abbrev pub null_entry : GdtEntry
null_entry = record {
  limit_low = 0;
  base_low = 0;
  base_mid = 0;
  access = 0;
  flags_limit = 0;
  base_high = 0;
}

-- The entries behind it, of the selectors 0x08 and 0x10.
abbrev pub code_entry : GdtEntry
code_entry = record null_entry { limit_low = 0xFFFF; access = 0x9A; flags_limit = 0xAF }

abbrev pub data_entry : GdtEntry
data_entry = record null_entry { limit_low = 0xFFFF; access = 0x92; flags_limit = 0xCF }

-- The addresses of `message`, `buffer`, "guest.txt" and of the local `request` of a call.
pub record TestLayout : Type 0 where
  pub message_at : ℕ
  pub buffer_at : ℕ
  pub guest_txt : ℕ
  pub request_at : ℕ

-- `sizeof(message) - 1`.
abbrev pub message_size : ℕ
message_size = 15

-- How the guest stands: in the loop that waits, at `ud2`, or at the last `hlt`.
pub data Ending : Type 0 where
  spinning undefined_instruction halted : Ending

module _ (P : Ports) where
  -- `serial_write` on a string in memory that ends within the given number of bytes.
  pub serial_write_at : ℕ → ℕ → P.State → P.State
  serial_write_at zero a s = s
  serial_write_at (suc n) a s =
      let rest = serial_write_at n (a + 1) (P.outb 0xE9 (P.mem s a) s) in
      if P.mem s a == 0 then s else rest

  pub report_file_io : Bool → ℕ → P.State → P.State
  unfolding serial_write_at
  report_file_io good buffer_at s =
      let content = serial_write_at (message_size + 1) buffer_at (
        serial_write P
          (b'F' ∷ b'i' ∷ b'l' ∷ b'e' ∷ b' ' ∷ b'c' ∷ b'o' ∷ b'n' ∷ b't' ∷ b'e' ∷ b'n' ∷ b't' ∷ b':'
            ∷ b' ' ∷ [])
          s) in
      if not good
      then serial_write P
          (b'F' ∷ b'i' ∷ b'l' ∷ b'e' ∷ b' ' ∷ b'I' ∷ b'/' ∷ b'O' ∷ b' ' ∷ b'f' ∷ b'a' ∷ b'i' ∷ b'l'
            ∷ b'e' ∷ b'd' ∷ b'!' ∷ 10 ∷ [])
          s
      else P.outb 0xE9 10 content

  pub test_file_io : TestLayout → P.State → P.State
  unfolding report_file_io
  test_file_io L s0 =
      let s = P.set_mem (store (P.mem s0) (L.buffer_at + message_size) 0) s0 in
      let (s1, fd) =
        open_path P L.request_at L.guest_txt (file_open_read_write + file_open_create) s in
      let (s2, bytes_written) =
        when P (not (is_negative fd)) (write P L.request_at fd L.message_at message_size s1) s1 in
      let (s3, seek_result) =
        when P (bytes_written == message_size) (lseek P L.request_at fd 0 file_seek_set s2) s2 in
      let (s4, bytes_read) =
        when P (seek_result == 0) (read P L.request_at fd L.buffer_at message_size s3) s3 in
      let (s5, close_result) = when P (not (is_negative fd)) (close P L.request_at fd s4) s4 in
      let good =
        bytes_written == message_size
        && seek_result == 0
        && bytes_read == message_size
        && not (is_negative close_result) in
      report_file_io good L.buffer_at s5

  -- The interrupts that arrive while the guest waits.
  unfoldable pub wait_for_transfer : Layout → ℕ → Statics → P.State → Statics × P.State
  wait_for_transfer L zero g s = (g, s)
  wait_for_transfer L (suc n) g s =
      let (g1, s1) = irq0_handler P L g s in
      let rest = wait_for_transfer L n g1 s1 in if communication_finished g then (g, s) else rest

  pub talk : P.State → P.State
  talk s =
      let s1 =
        serial_write P
          (b'E' ∷ b'n' ∷ b't' ∷ b'e' ∷ b'r' ∷ b' ' ∷ b'o' ∷ b'n' ∷ b'e' ∷ b' ' ∷ b'c' ∷ b'h' ∷ b'a'
            ∷ b'r' ∷ b'a' ∷ b'c' ∷ b't' ∷ b'e' ∷ b'r' ∷ b':' ∷ b' ' ∷ [])
          (serial_write P
            (b'H' ∷ b'e' ∷ b'l' ∷ b'l' ∷ b'o' ∷ b',' ∷ b' ' ∷ b'w' ∷ b'o' ∷ b'r' ∷ b'l' ∷ b'd'
              ∷ b'!' ∷ 10 ∷ [])
            (serial_write P
              (b'S' ∷ b'h' ∷ b'a' ∷ b'r' ∷ b'e' ∷ b'd' ∷ b' ' ∷ b'b' ∷ b'u' ∷ b'f' ∷ b'f' ∷ b'e'
                ∷ b'r' ∷ b' ' ∷ b't' ∷ b'r' ∷ b'a' ∷ b'n' ∷ b's' ∷ b'f' ∷ b'e' ∷ b'r' ∷ b' ' ∷ b'c'
                ∷ b'o' ∷ b'm' ∷ b'p' ∷ b'l' ∷ b'e' ∷ b't' ∷ b'e' ∷ b'.' ∷ 10 ∷ [])
              s)) in
      let (s2, input) = P.inb 0xE9 s1 in
      let s3 =
        serial_write P
          (b'G' ∷ b'u' ∷ b'e' ∷ b's' ∷ b't' ∷ b' ' ∷ b'r' ∷ b'e' ∷ b'c' ∷ b'e' ∷ b'i' ∷ b'v' ∷ b'e'
            ∷ b'd' ∷ b':' ∷ b' ' ∷ [])
          s2 in
      P.outb 0xE9 10 (P.outb 0xE9 input s3)

  unfoldable pub after_transfer : Statics × P.State → Ending × P.State
  unfolding talk
  after_transfer (g, s) =
      if not (communication_finished g)
      then (spinning, s)
      else if not (communication_succeeded g)
      then (
        undefined_instruction,
        serial_write P
            (b'S' ∷ b'h' ∷ b'a' ∷ b'r' ∷ b'e' ∷ b'd' ∷ b' ' ∷ b'b' ∷ b'u' ∷ b'f' ∷ b'f' ∷ b'e'
              ∷ b'r' ∷ b' ' ∷ b't' ∷ b'r' ∷ b'a' ∷ b'n' ∷ b's' ∷ b'f' ∷ b'e' ∷ b'r' ∷ b' ' ∷ b'f'
              ∷ b'a' ∷ b'i' ∷ b'l' ∷ b'e' ∷ b'd' ∷ b'.' ∷ 10 ∷ [])
            s,
      )
      else (halted, talk s)

  -- `_start` with the given number of interrupts.
  unfoldable pub start : TestLayout → Layout → ℕ → P.State → Ending × P.State
  unfolding test_file_io wait_for_transfer after_transfer
  start T L n s = after_transfer (wait_for_transfer L n initial_statics (test_file_io T s))
