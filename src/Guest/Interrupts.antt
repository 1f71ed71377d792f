-- ===== src/Guest/Interrupts.antt =====
-- guest/src/interrupts.c: the interrupt that stores the mode and then transfers the data, and the gate of
-- an interrupt descriptor. The static variables are a record; the addresses that the compiler gives to
-- local variables and literals are a parameter.
use Prim.Native.Nat.{◌^◌, ◌%◌, ◌/◌}
use kvm_hypervisor.Base.{
  ℕ, zero, suc, ◌+◌, Bool, not, ◌&&◌, List, [], ◌∷◌, ltb, ◌==◌, if◌then◌else◌,
}
use kvm_hypervisor.Base.Int.{Int32, minus_one, is_negative}
use kvm_hypervisor.Base.Memory.{store}
use kvm_hypervisor.Protocol.{
  buffer_size, shared_buffer_port, shared_buffer_status_port, vm_mode_writer, file_open_read,
  file_open_write, file_open_create, file_seek_set,
}
use kvm_hypervisor.Guest.Ports.{Ports}
use kvm_hypervisor.Guest.File.{open_path, close, read, write, lseek}

-- The addresses of `request`, of `buffer`, and of "guest.txt" and "reader.txt".
pub record Layout : Type 0 where
  pub request_at : ℕ
  pub buffer_at : ℕ
  pub guest_txt : ℕ
  pub reader_txt : ℕ

pub record Statics : Type 0 where
  pub transfer_finished : ℕ
  pub transfer_succeeded : ℕ
  pub vm_mode : ℕ
  pub mode_initialized : ℕ

-- They are in the zeroed part of the image.
abbrev pub initial_statics : Statics
initial_statics = record {
  transfer_finished = 0;
  transfer_succeeded = 0;
  vm_mode = 0;
  mode_initialized = 0;
}

abbrev pub mode_text : ℕ → List ℕ
mode_text mode =
    if mode == vm_mode_writer
    then b'M' ∷ b'o' ∷ b'd' ∷ b'e' ∷ b':' ∷ b' ' ∷ b'w' ∷ b'r' ∷ b'i' ∷ b't' ∷ b'e' ∷ b'r' ∷ 10 ∷ []
    else b'M' ∷ b'o' ∷ b'd' ∷ b'e' ∷ b':' ∷ b' ' ∷ b'r' ∷ b'e' ∷ b'a' ∷ b'd' ∷ b'e' ∷ b'r' ∷ 10 ∷ []

-- An `int` that holds a truth value.
abbrev pub truth : Bool → ℕ
truth b = if b then 1 else 0

module _ (P : Ports) where
  pub serial_write : List ℕ → P.State → P.State
  serial_write [] s = s
  serial_write (c ∷ message) s = serial_write message (P.outb 0xE9 c s)

  -- The two loops over the bytes of `buffer`, from an address on.
  unfoldable pub send_bytes : ℕ → ℕ → P.State → P.State
  send_bytes zero a s = s
  send_bytes (suc n) a s = send_bytes n (a + 1) (P.outb shared_buffer_port (P.mem s a) s)

  unfoldable pub receive_bytes : ℕ → ℕ → P.State → P.State
  receive_bytes zero a s = s
  receive_bytes (suc n) a s =
      let (s1, value) = P.inb shared_buffer_port s in
      receive_bytes n (a + 1) (P.set_mem (store (P.mem s1) a value) s1)

  -- `fd >= 0 ? ... : -1`.
  abbrev pub when : Bool → P.State × Int32 → P.State → P.State × Int32
  when taken called s = if taken then called else (s, minus_one)

  pub write_shared_buffer : Layout → P.State → P.State × ℕ
  unfolding send_bytes open_path close read
  write_shared_buffer L s =
      let (s1, fd) = open_path P L.request_at L.guest_txt file_open_read s in
      let (s2, bytes_read) =
        when (not (is_negative fd)) (read P L.request_at fd L.buffer_at (buffer_size + 1) s1) s1 in
      let (s3, close_result) = when (not (is_negative fd)) (close P L.request_at fd s2) s2 in
      let count = if not (is_negative bytes_read) then bytes_read else 0 in
      let (s4, written) =
        P.inl shared_buffer_status_port
          (send_bytes count L.buffer_at (P.outl shared_buffer_port count s3)) in
      let expected = if ltb buffer_size count then buffer_size else count in
      (s4, truth (not (is_negative bytes_read) && close_result == 0 && written == expected))

  -- `read_shared_buffer` from its file on, with the received bytes in `buffer`.
  pub store_received : Layout → ℕ → P.State → P.State × ℕ
  unfolding open_path close write lseek
  store_received L count s =
      let (s1, fd) = open_path P L.request_at L.reader_txt (file_open_write + file_open_create) s in
      let (s2, seek_result) =
        when (not (is_negative fd)) (lseek P L.request_at fd 0 file_seek_set s1) s1 in
      let (s3, bytes_written) =
        when (seek_result == 0) (write P L.request_at fd L.buffer_at count s2) s2 in
      let (s4, close_result) = when (not (is_negative fd)) (close P L.request_at fd s3) s3 in
      (s4, truth (bytes_written == count && close_result == 0))

  pub read_shared_buffer : Layout → P.State → P.State × ℕ
  unfolding receive_bytes store_received
  read_shared_buffer L s =
      let (s1, count) = P.inl shared_buffer_port s in
      let s2 = receive_bytes count L.buffer_at s1 in
      let stored = store_received L count (P.outl shared_buffer_status_port count s2) in
      if ltb buffer_size count then (P.outl shared_buffer_status_port 0 s1, 0) else stored

  pub assign_mode : Statics → P.State → Statics × P.State
  unfolding serial_write
  assign_mode g s =
      let (s1, mode) = P.inb shared_buffer_port s in
      (record g { vm_mode = mode; mode_initialized = 1 }, serial_write (mode_text mode) s1)

  pub transfer : Layout → Statics → P.State → Statics × P.State
  unfolding write_shared_buffer read_shared_buffer
  transfer L g s =
      let (s1, succeeded) =
        if g.vm_mode == vm_mode_writer then write_shared_buffer L s else read_shared_buffer L s in
      (record g { transfer_succeeded = succeeded; transfer_finished = 1 }, s1)

  unfoldable pub irq0_handler : Layout → Statics → P.State → Statics × P.State
  unfolding assign_mode transfer
  irq0_handler L g s = if g.mode_initialized == 0 then assign_mode g s else transfer L g s

abbrev pub communication_finished : Statics → Bool
communication_finished g = not (g.transfer_finished == 0)

abbrev pub communication_succeeded : Statics → Bool
communication_succeeded g = not (g.transfer_succeeded == 0)

pub record IdtEntry : Type 0 where
  pub offset_low : ℕ
  pub selector : ℕ
  pub ist : ℕ
  pub type_attr : ℕ
  pub offset_mid : ℕ
  pub offset_high : ℕ
  pub reserved : ℕ

-- The entry that `set_idt_gate` stores for a handler's address.
unfoldable pub idt_gate : ℕ → IdtEntry
idt_gate addr = record {
  offset_low = addr % 2 ^ 16;
  selector = 0x08;
  ist = 0;
  type_attr = 0x8E;
  offset_mid = addr / 2 ^ 16 % 2 ^ 16;
  offset_high = addr / 2 ^ 32 % 2 ^ 32;
  reserved = 0;
}
