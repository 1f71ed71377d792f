-- ===== src/Guest/DownloadTests.antt =====
-- A reader's download from a small state of the shared buffer.
use kvm_hypervisor.Base.{
  ℕ, ◌≡◌, ◌∙◌, refl, sym, ap, inr, arith, true, false, [], ◌∷◌, replicate, Option, some, none,
}
use kvm_hypervisor.Base.Memory.{Memory, read_le, write_le, store_bytes}
use kvm_hypervisor.Protocol.{shared_buffer_port}
use kvm_hypervisor.SharedBuffer.State.{
  SharedBufferState, SharedBufferVmState, Buffers, Outcome, blocked, returned, initial_state,
  initial_vm_state,
}
use kvm_hypervisor.SharedBuffer.{
  handle_shared_buffer_io, read_shared_byte, begin_reader_round, take_byte, start_reading,
}
use kvm_hypervisor.Guest.Ports.{Ports}
use kvm_hypervisor.Guest.Interrupts.{receive_bytes}
use kvm_hypervisor.Guest.Received.{byte_in, word_in, handle-byte_in, handle-word_in}
use kvm_hypervisor.Guest.Download.{IsRead, receive_bytes-stores}

record Download : Type 0 where
  shared : SharedBufferState
  own : SharedBufferVmState
  memory : Memory

abbrev Seen : Type 0
Seen = Option (SharedBufferState × SharedBufferVmState × ℕ)

-- What a served IN of one byte, or of a word, shows.
abbrev byte_of : Outcome → Seen
byte_of (returned true b) = some (b.shared, b.own, b.area 0)
byte_of (returned false b) = none
byte_of blocked = none

abbrev word_of : Outcome → Seen
word_of (returned true b) = some (b.shared, b.own, read_le 4 b.area 0)
word_of (returned false b) = none
word_of blocked = none

abbrev after : Seen → Download → Download × ℕ
after none u = (u, 0)
after (some (shared, own, value)) u = (record u { shared = shared; own = own }, value)

after-memory : (x : Seen) (u : Download) → (after x u).0.memory ≡ u.memory
after-memory none u = refl
after-memory (some x) u = refl

abbrev buffers : Download → Memory → Buffers
buffers u area = record { shared = u.shared; own = u.own; area = area }

abbrev empty : Memory
empty a = 0

-- Only the port of the buffer is served.
abbrev download_ports : Ports
download_ports = record {
  State = Download;
  mem = λ u. u.memory;
  set_mem = λ m u. record u { memory = m };
  outb = λ port v u. u;
  outl = λ port v u. u;
  inb = λ port u. after (byte_of (handle_shared_buffer_io (byte_in 0) 4 (buffers u empty))) u;
  inl = λ port u. after (word_of (handle_shared_buffer_io (word_in 0) 4 (buffers u empty))) u;
}

read_shared_byte-same :
    (u : Download) (area area1 : Memory)
    → byte_of (read_shared_byte 0 (buffers u area)) ≡ byte_of (read_shared_byte 0 (buffers u area1))
unfolding read_shared_byte take_byte
read_shared_byte-same u area area1 = ground arith

read_word :
    (m m' : Memory) (v : ℕ) → read_le 4 (write_le 4 m 0 v) 0 ≡ read_le 4 (write_le 4 m' 0 v) 0
unfolding read_le write_le
read_word m m' v = refl

begin_reader_round-same :
    (u : Download) (area area1 : Memory)
    → word_of (begin_reader_round 0 (buffers u area))
      ≡ word_of (begin_reader_round 0 (buffers u area1))
unfolding begin_reader_round start_reading
begin_reader_round-same u area area1 = ground (arith, read_word area area1 u.shared.size)

download_ports-IsRead : IsRead download_ports (λ u. u.shared) (λ u. u.own) 0 4
download_ports-IsRead = record {
  inside = omega arith;
  store_mem = λ m u. refl;
  store_shared = λ m u. refl;
  store_own = λ m u. refl;
  inb_mem = λ u. after-memory (byte_of (handle_shared_buffer_io (byte_in 0) 4 (buffers u empty))) u;
  inl_mem = λ u. after-memory (word_of (handle_shared_buffer_io (word_in 0) 4 (buffers u empty))) u;
  inb_lem = λ u area b (delivered, reader) e.
      let same =
        ap byte_of (handle-byte_in 0 4 (buffers u empty) (omega arith) delivered reader)
        ∙ read_shared_byte-same u empty area
        ∙ ap byte_of
            (sym (handle-byte_in 0 4 (buffers u area) (omega arith) delivered reader) ∙ e) in
      (
        ap (λ x. (after x u).0.shared) same,
        ap (λ x. (after x u).0.own) same,
        ap (λ x. (after x u).1) same,
      );
  inl_lem = λ u area b (delivered, reader) e.
      let same =
        ap word_of (handle-word_in 0 4 (buffers u empty) (omega arith) delivered reader)
        ∙ begin_reader_round-same u empty area
        ∙ ap word_of
            (sym (handle-word_in 0 4 (buffers u area) (omega arith) delivered reader) ∙ e) in
      (
        ap (λ x. (after x u).0.shared) same,
        ap (λ x. (after x u).0.own) same,
        ap (λ x. (after x u).1) same,
      );
}

-- A published round of two bytes, and a reader that knows its mode.
abbrev before_download : Download
before_download = record {
  shared = record (initial_state 1) {
    bytes = b'o' ∷ b'k' ∷ replicate 254 0;
    size = 2;
    generation = 1;
    data_ready = true;
    round_in_progress = true;
  };
  own = record (initial_vm_state 0) { mode_delivered = true };
  memory = empty;
}

receive_bytes-stores_example :
    let (s1, count) = download_ports.inl shared_buffer_port before_download in
    let s' = receive_bytes download_ports count 100 s1 in
    (count ≡ 2)
    × (s'.memory ≡ store_bytes empty 100 (b'o' ∷ b'k' ∷ []))
    × (s'.shared ≡ before_download.shared)
receive_bytes-stores_example =
    receive_bytes-stores download_ports (λ u. u.shared) (λ u. u.own) 0 4 download_ports-IsRead 100
      before_download (refl, refl) refl refl (omega arith) (inr (omega arith)) refl (omega arith)
      (omega arith)
