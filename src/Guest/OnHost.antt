-- ===== src/Guest/OnHost.antt =====
-- guest/src/file.c on host/src/file_io.cpp: what a guest's call of the file API returns.
use Prim.Native.Nat.{◌^◌, ◌%◌}
use kvm_hypervisor.Base.{
  ℕ, ◌+◌, ◌≤◌, ◌<◌, ◌≡◌, ◌∙◌, ◌⊎◌, inl, inr, refl, sym, subst, ap, arith, Bool-cases, Option, none,
  some, ◌==◌, if◌then◌else◌,
}
use kvm_hypervisor.Base.Int.{Int32, minus_one}
use kvm_hypervisor.Base.Memory.{Memory, read_le, write_le, read_le-write_le}
use kvm_hypervisor.Exit.{Io, io_in, io_out}
use kvm_hypervisor.Protocol.{file_io_port}
use kvm_hypervisor.FileIo.Host.{Host}
use kvm_hypervisor.FileIo.Names.{get_guest_memory}
use kvm_hypervisor.FileIo.State.{FileRequest, World, decode_request}
use kvm_hypervisor.FileIo.Requests.{process_file_request}
use kvm_hypervisor.FileIo.Port.{answer_request, handle_file_io}
use kvm_hypervisor.FileIo.Answers.{handle_file_io-answers}
use kvm_hypervisor.Guest.Ports.{Ports}
use kvm_hypervisor.Guest.File.{
  encode_request, IsRequest, decode_request-encode_request, submit_file_request, is_missing,
  open_request, close_request, read_request, write_request, lseek_request, open_path, close, read,
  write, lseek,
}

abbrev pub file_out : ℕ → Io
file_out d = record {
  direction = io_out;
  size = 4;
  port = file_io_port;
  count = 1;
  data_offset = d;
}

abbrev pub file_in : ℕ → Io
file_in d = record { direction = io_in; size = 4; port = file_io_port; count = 1; data_offset = d }

-- That an access to the file port is an exit which `handleFileIo` serves: KVM puts the datum of an OUT
-- into the mapping and takes that of an IN from it, and guest memory is the memory that the host maps.
pub record IsServed (H : Host) (P : Ports) (world : P.State → World H) (data_at mapping_size : ℕ)
    : Type 0 where
  pub inside : data_at + 4 ≤ mapping_size
  pub mem_lem : (s : P.State) → P.mem s ≡ (world s).mem
  pub set_mem_lem :
      (m : Memory) (s : P.State) → world (P.set_mem m s) ≡ record (world s) { mem = m }
  pub outl_lem :
      (v : ℕ) (s : P.State) (area area1 : Memory) (w1 : World H)
      → v < 2 ^ 32
      → read_le 4 area data_at ≡ v
      → handle_file_io H (file_out data_at) mapping_size area (world s) ≡ some (w1, area1)
      → world (P.outl file_io_port v s) ≡ w1
  pub inl_lem :
      (s : P.State) (area area1 : Memory) (w1 : World H)
      → handle_file_io H (file_in data_at) mapping_size area (world s) ≡ some (w1, area1)
      → (world (P.inl file_io_port s).0 ≡ w1) × ((P.inl file_io_port s).1 ≡ read_le 4 area1 data_at)

-- A call of one of the five functions, with its arguments.
pub data FileCall : Type 0 where
  call_open : ℕ → Int32 → FileCall
  call_close : Int32 → FileCall
  call_read call_write : Int32 → ℕ → Int32 → FileCall
  call_lseek : Int32 → Int32 → Int32 → FileCall

abbrev pub IsCall : FileCall → Type 0
IsCall (call_open path flags) = flags < 2 ^ 32
IsCall (call_close fd) = fd < 2 ^ 32
IsCall (call_read fd buf count) = (fd < 2 ^ 32) × (count < 2 ^ 32)
IsCall (call_write fd buf count) = (fd < 2 ^ 32) × (count < 2 ^ 32)
IsCall (call_lseek fd offset off_flag) = (fd < 2 ^ 32) × (offset < 2 ^ 32) × (off_flag < 2 ^ 32)

-- The request that a call is about; none where a pointer is missing.
abbrev pub request_of : FileCall → Option FileRequest
request_of (call_open path flags) = if path == 0 then none else some (open_request path flags)
request_of (call_close fd) = some (close_request fd)
request_of (call_read fd buf count) =
    if is_missing buf count then none else some (read_request fd buf count)
request_of (call_write fd buf count) =
    if is_missing buf count then none else some (write_request fd buf count)
request_of (call_lseek fd offset off_flag) = some (lseek_request fd offset off_flag)

abbrev pub calling : (P : Ports) → FileCall → ℕ → P.State → P.State × Int32
calling P (call_open path flags) request_at s = open_path P request_at path flags s
calling P (call_close fd) request_at s = close P request_at fd s
calling P (call_read fd buf count) request_at s = read P request_at fd buf count s
calling P (call_write fd buf count) request_at s = write P request_at fd buf count s
calling P (call_lseek fd offset off_flag) request_at s = lseek P request_at fd offset off_flag s

calling_cases :
    (P : Ports) (c : FileCall) (request_at : ℕ) (s : P.State)
    → IsCall c
    → ((request_of c ≡ none) × (calling P c request_at s ≡ (s, minus_one)))
      ⊎ ((r : FileRequest) × (request_of c ≡ some r)
          × IsRequest r
          × (calling P c request_at s ≡ submit_file_request P request_at r s))
unfolding open_path close read write lseek
calling_cases P (call_open path flags) request_at s words = elim (Bool-cases (path == 0)) [
  | inl e ↦ inl (ground arith, ground arith)
  | inr e ↦ inr (open_request path flags, ground arith, ground arith, ground arith)
]
calling_cases P (call_close fd) request_at s words =
    inr (close_request fd, refl, ground arith, refl)
calling_cases P (call_read fd buf count) request_at s (w1, w2) =
    elim (Bool-cases (is_missing buf count)) [
      | inl e ↦ inl (ground arith, ground arith)
      | inr e ↦ inr (read_request fd buf count, ground arith, ground arith, ground arith)
    ]
calling_cases P (call_write fd buf count) request_at s (w1, w2) =
    elim (Bool-cases (is_missing buf count)) [
      | inl e ↦ inl (ground arith, ground arith)
      | inr e ↦ inr (write_request fd buf count, ground arith, ground arith, ground arith)
    ]
calling_cases P (call_lseek fd offset off_flag) request_at s (w1, w2, w3) =
    inr (lseek_request fd offset off_flag, refl, ground arith, refl)

answer_request-decoded :
    (H : Host) (w : World H) (p : ℕ)
    → p + 24 ≤ w.mem_size
    → answer_request H p w ≡ process_file_request H (decode_request w.mem p) w
unfolding answer_request get_guest_memory
answer_request-decoded H w p inside = ground arith

module _ (H : Host) (P : Ports) (world : P.State → World H) (data_at mapping_size : ℕ)
    (served : IsServed H P world data_at mapping_size) where
  -- The world with a request stored, which is the one that the host answers.
  abbrev pub asking : ℕ → FileRequest → World H → World H
  asking request_at r w = record w { mem = encode_request w.mem request_at r }

  -- The call returns the host's answer to a request, and the host is as that request left it.
  abbrev pub IsAnswer : ℕ → FileRequest → P.State → P.State × Int32 → Type 0
  IsAnswer request_at r s (s1, result) =
      let (w, answer) = process_file_request H r (asking request_at r (world s)) in
      (result ≡ answer) × (world s1 ≡ w)

  abbrev pub HasRoom : ℕ → World H → Type 0
  HasRoom request_at w =
      (request_at < 2 ^ 32) × (request_at + 24 ≤ w.mem_size) × (w.files.next_descriptor < 2 ^ 32)

  stored-asking :
      (request_at : ℕ) (r : FileRequest) (s : P.State)
      → world (P.set_mem (encode_request (P.mem s) request_at r) s) ≡ asking request_at r (world s)
  stored-asking request_at r s =
      served.set_mem_lem (encode_request (P.mem s) request_at r) s
      ∙ ap (λ (m : Memory). record (world s) { mem = encode_request m request_at r })
          (served.mem_lem s)

  answer-asking :
      (request_at : ℕ) (r : FileRequest) (w : World H)
      → IsRequest r
      → request_at + 24 ≤ w.mem_size
      → answer_request H request_at (asking request_at r w)
        ≡ process_file_request H r (asking request_at r w)
  answer-asking request_at r w words inside =
      answer_request-decoded H (asking request_at r w) request_at inside
      ∙ ap (λ q. process_file_request H q (asking request_at r w))
          (decode_request-encode_request w.mem request_at r words)

  submit_file_request-IsAnswer :
      (request_at : ℕ) (r : FileRequest) (s : P.State)
      → IsRequest r
      → HasRoom request_at (world s)
      → IsAnswer request_at r s (submit_file_request P request_at r s)
  unfolding submit_file_request
  submit_file_request-IsAnswer request_at r s words (word, inside, small) =
      let w0 = asking request_at r (world s) in
      let s1 = P.set_mem (encode_request (P.mem s) request_at r) s in
      let v = request_at % 2 ^ 32 in
      let s2 = P.outl file_io_port v s1 in
      let area = write_le 4 (λ a. 0) data_at v in
      let told : read_le 4 area data_at ≡ v = read_le-write_le 4 (λ a. 0) data_at v (omega arith) in
      let same : v ≡ request_at = omega arith in
      let (w1, area1, area2, out, in_, got) =
        handle_file_io-answers H (file_out data_at) (file_in data_at) mapping_size area w0
          (refl, refl, refl, served.inside) refl (refl, refl, refl, served.inside) refl small in
      let sent : world s2 ≡ w1 = served.outl_lem v s1 area area1 w1 (omega arith) told (
        subst
          (λ (w : World H).
            handle_file_io H (file_out data_at) mapping_size area w ≡ some (w1, area1))
          (sym (stored-asking request_at r s)) out) in
      let answer : answer_request H (read_le 4 area data_at) w0 ≡ process_file_request H r w0 =
        ap (λ q. answer_request H q w0) (told ∙ same)
        ∙ answer-asking request_at r (world s) words inside in
      let (left, result) =
        served.inl_lem s2 area1 area2 (answer_request H (read_le 4 area data_at) w0).0 (
          subst
            (λ (w : World H).
              handle_file_io H (file_in data_at) mapping_size area1 w
              ≡ some ((answer_request H (read_le 4 area data_at) w0).0, area2))
            (sym sent) in_) in
      (
        result ∙ got ∙ ap (λ (x : World H × Int32). x.1) answer,
        left ∙ ap (λ (x : World H × Int32). x.0) answer,
      )

  -- Each call of the guest's file API returns -1 and does nothing where a pointer is missing; otherwise
  -- it returns what the host answers to the call's request, and the host is as that request left it.
  -- The arguments are 32-bit words, the request lies inside guest memory below 4 GiB, the descriptor
  -- counter is a 32-bit word, and the accesses to the file port are served by the host.
  pub calling-IsAnswer :
      (c : FileCall) (request_at : ℕ) (s : P.State)
      → IsCall c
      → HasRoom request_at (world s)
      → ((request_of c ≡ none) × (calling P c request_at s ≡ (s, minus_one)))
        ⊎ ((r : FileRequest) × (request_of c ≡ some r)
            × IsAnswer request_at r s (calling P c request_at s))
  calling-IsAnswer c request_at s words room = elim (calling_cases P c request_at s words) [
    | inl missing ↦ inl missing
    | inr (r, e, fields, same) ↦ inr (
      r,
      e,
      subst (IsAnswer request_at r s) (sym same)
          (submit_file_request-IsAnswer request_at r s fields room),
    )
  ]
