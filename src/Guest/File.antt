-- ===== src/Guest/File.antt =====
-- guest/src/file.c: the requests that the guest makes. `request_at` is the address of the local
-- variable `request`; `int` values are bit patterns.
use Prim.Native.Nat.{◌^◌, ◌%◌}
use kvm_hypervisor.Base.{
  ℕ, ◌+◌, ◌<◌, ◌≤◌, ◌≡◌, ◌∙◌, ◌⊎◌, inl, arith, Bool, not, ◌&&◌, ltb, ◌==◌, if◌then◌else◌,
}
use kvm_hypervisor.Base.Int.{Int32, minus_one, is_negative}
use kvm_hypervisor.Base.Memory.{Memory, read_le, write_le, read_le-write_le, read_le-write_le_apart}
use kvm_hypervisor.Protocol.{
  file_io_port, file_operation_open, file_operation_close, file_operation_read,
  file_operation_write, file_operation_lseek,
}
use kvm_hypervisor.FileIo.State.{FileRequest, decode_request}
use kvm_hypervisor.Guest.Ports.{Ports}

-- The six words of the struct in memory.
pub encode_request : Memory → ℕ → FileRequest → Memory
encode_request mem p r =
    write_le 4
      (write_le 4
        (write_le 4
          (write_le 4 (write_le 4 (write_le 4 mem p r.operation) (p + 4) r.descriptor) (p + 8)
            r.buffer)
          (p + 12) r.count)
        (p + 16) r.offset)
      (p + 20) r.flags

-- Its fields are words.
pub record IsRequest (r : FileRequest) : Type 0 where
  pub operation_word : r.operation < 2 ^ 32
  pub descriptor_word : r.descriptor < 2 ^ 32
  pub buffer_word : r.buffer < 2 ^ 32
  pub count_word : r.count < 2 ^ 32
  pub offset_word : r.offset < 2 ^ 32
  pub flags_word : r.flags < 2 ^ 32

-- Where the designated initialisers name no field, it is 0.
abbrev pub no_request : FileRequest
no_request = record { operation = 0; descriptor = 0; buffer = 0; count = 0; offset = 0; flags = 0 }

abbrev pub open_request : ℕ → Int32 → FileRequest
open_request path flags = record no_request {
  operation = file_operation_open;
  buffer = path % 2 ^ 32;
  flags = flags;
}

abbrev pub close_request : Int32 → FileRequest
close_request fd = record no_request { operation = file_operation_close; descriptor = fd }

abbrev pub read_request : Int32 → ℕ → Int32 → FileRequest
read_request fd buf count = record no_request {
  operation = file_operation_read;
  descriptor = fd;
  buffer = buf % 2 ^ 32;
  count = count;
}

abbrev pub write_request : Int32 → ℕ → Int32 → FileRequest
write_request fd buf count = record no_request {
  operation = file_operation_write;
  descriptor = fd;
  buffer = buf % 2 ^ 32;
  count = count;
}

abbrev pub lseek_request : Int32 → Int32 → Int32 → FileRequest
lseek_request fd offset off_flag = record no_request {
  operation = file_operation_lseek;
  descriptor = fd;
  offset = offset;
  flags = off_flag;
}

-- `buf == 0 && count > 0`.
abbrev pub is_missing : ℕ → Int32 → Bool
is_missing buf count = buf == 0 && not (is_negative count) && ltb 0 count

module _ (P : Ports) where
  unfoldable pub submit_file_request : ℕ → FileRequest → P.State → P.State × Int32
  unfolding encode_request
  submit_file_request request_at request s =
      let s1 = P.set_mem (encode_request (P.mem s) request_at request) s in
      P.inl file_io_port (P.outl file_io_port (request_at % 2 ^ 32) s1)

  unfoldable pub open_path : ℕ → ℕ → Int32 → P.State → P.State × Int32
  unfolding submit_file_request
  open_path request_at path flags s =
      if path == 0
      then (s, minus_one)
      else submit_file_request request_at (open_request path flags) s

  unfoldable pub close : ℕ → Int32 → P.State → P.State × Int32
  unfolding submit_file_request
  close request_at fd s = submit_file_request request_at (close_request fd) s

  unfoldable pub read : ℕ → Int32 → ℕ → Int32 → P.State → P.State × Int32
  unfolding submit_file_request
  read request_at fd buf count s =
      if is_missing buf count
      then (s, minus_one)
      else submit_file_request request_at (read_request fd buf count) s

  unfoldable pub write : ℕ → Int32 → ℕ → Int32 → P.State → P.State × Int32
  unfolding submit_file_request
  write request_at fd buf count s =
      if is_missing buf count
      then (s, minus_one)
      else submit_file_request request_at (write_request fd buf count) s

  unfoldable pub lseek : ℕ → Int32 → Int32 → Int32 → P.State → P.State × Int32
  unfolding submit_file_request
  lseek request_at fd offset off_flag s =
      submit_file_request request_at (lseek_request fd offset off_flag) s

-- Requests with the same fields.
same :
    {a b : FileRequest}
    → a.operation ≡ b.operation
    → a.descriptor ≡ b.descriptor
    → a.buffer ≡ b.buffer
    → a.count ≡ b.count
    → a.offset ≡ b.offset
    → a.flags ≡ b.flags
    → a ≡ b
same e1 e2 e3 e4 e5 e6 i = record {
  operation = e1 i;
  descriptor = e2 i;
  buffer = e3 i;
  count = e4 i;
  offset = e5 i;
  flags = e6 i;
}

under :
    (m : Memory) (p q v : ℕ)
    → (q + 4 ≤ p) ⊎ (p + 4 ≤ q)
    → read_le 4 (write_le 4 m p v) q ≡ read_le 4 m q
under m p q v apart = read_le-write_le_apart 4 4 m p q v apart

word : (m : Memory) (p v : ℕ) → v < 2 ^ 32 → read_le 4 (write_le 4 m p v) p ≡ v
word m p v small = read_le-write_le 4 m p v (omega arith)

-- What the guest stores as a request is what the host reads there, when the fields are 32-bit words.
pub decode_request-encode_request :
    (mem : Memory) (p : ℕ) (r : FileRequest)
    → IsRequest r
    → decode_request (encode_request mem p r) p ≡ r
unfolding encode_request
decode_request-encode_request mem p r w =
    let m1 = write_le 4 mem p r.operation in
    let m2 = write_le 4 m1 (p + 4) r.descriptor in
    let m3 = write_le 4 m2 (p + 8) r.buffer in
    let m4 = write_le 4 m3 (p + 12) r.count in
    let m5 = write_le 4 m4 (p + 16) r.offset in
    let operation : read_le 4 (encode_request mem p r) p ≡ r.operation =
      under m5 (p + 20) p r.flags (inl (omega arith))
      ∙ under m4 (p + 16) p r.offset (inl (omega arith))
      ∙ under m3 (p + 12) p r.count (inl (omega arith))
      ∙ under m2 (p + 8) p r.buffer (inl (omega arith))
      ∙ under m1 (p + 4) p r.descriptor (inl (omega arith))
      ∙ word mem p r.operation w.operation_word in
    let descriptor : read_le 4 (encode_request mem p r) (p + 4) ≡ r.descriptor =
      under m5 (p + 20) (p + 4) r.flags (inl (omega arith))
      ∙ under m4 (p + 16) (p + 4) r.offset (inl (omega arith))
      ∙ under m3 (p + 12) (p + 4) r.count (inl (omega arith))
      ∙ under m2 (p + 8) (p + 4) r.buffer (inl (omega arith))
      ∙ word m1 (p + 4) r.descriptor w.descriptor_word in
    let buffer : read_le 4 (encode_request mem p r) (p + 8) ≡ r.buffer =
      under m5 (p + 20) (p + 8) r.flags (inl (omega arith))
      ∙ under m4 (p + 16) (p + 8) r.offset (inl (omega arith))
      ∙ under m3 (p + 12) (p + 8) r.count (inl (omega arith))
      ∙ word m2 (p + 8) r.buffer w.buffer_word in
    let count : read_le 4 (encode_request mem p r) (p + 12) ≡ r.count =
      under m5 (p + 20) (p + 12) r.flags (inl (omega arith))
      ∙ under m4 (p + 16) (p + 12) r.offset (inl (omega arith))
      ∙ word m3 (p + 12) r.count w.count_word in
    let offset : read_le 4 (encode_request mem p r) (p + 16) ≡ r.offset =
      under m5 (p + 20) (p + 16) r.flags (inl (omega arith))
      ∙ word m4 (p + 16) r.offset w.offset_word in
    let flags : read_le 4 (encode_request mem p r) (p + 20) ≡ r.flags =
      word m5 (p + 20) r.flags w.flags_word in
    same operation descriptor buffer count offset flags
