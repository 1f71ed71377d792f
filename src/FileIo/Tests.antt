-- ===== src/FileIo/Tests.antt =====
-- Runs of the file requests on a small host, and the theorems at concrete inputs.
use kvm_hypervisor.Base.{
  length-take_le, ℕ, ◌+◌, ◌≤◌, ◌<◌, ◌≡◌, ◌≢◌, ◌⊎◌, inl, inr, refl, arith, some, true, false, List,
  [], ◌∷◌, ◌++◌, take, length,
}
use kvm_hypervisor.Base.Memory.{Memory, store_bytes, write_le, read_le, store}
use kvm_hypervisor.Exit.{Io, io_in, io_out}
use kvm_hypervisor.FileIo.Host.{Name, configured, Host, IsPosix, done}
use kvm_hypervisor.FileIo.Names.{
  scan_name, get_guest_memory, is_valid_guest_file_name, read_guest_file_name,
  read_guest_file_name_iff, IsPlain, is_valid_guest_file_name-IsPlain,
}
use kvm_hypervisor.FileIo.Flags.{
  has_read_access, has_write_access, are_valid_open_flags, are_valid_open_flags_iff,
}
use kvm_hypervisor.FileIo.State.{
  FileRequest, OpenFile, World, no_files, find, find_shared, emplace, update,
}
use kvm_hypervisor.FileIo.Confined.{process_file_request-IsConfined}
use kvm_hypervisor.FileIo.CopyOnWrite.{write_file-IsOwn, IsOwn, IsWritten}
use kvm_hypervisor.FileIo.Valid.{IsValid}
use kvm_hypervisor.FileIo.Answers.{handle_file_io-answers, handle_file_io-IsValid}
use kvm_hypervisor.FileIo.Requests.{
  process_file_request, write_file, open_file, open_resolved, add_open_file, read_file, load_bytes,
}
use kvm_hypervisor.FileIo.Private.{resolve_file, prepare_file_for_write}
use kvm_hypervisor.FileIo.Port.{answer_request, handle_file_io, handle_out}

-- A host on which everything succeeds, no file of a VM exists, every read finds "hi", and whose state
-- is what was written.
abbrev pub test_host : Host
test_host = record {
  State = List ℕ;
  exists = λ s path. false;
  create_directories = λ s path. done s tt;
  copy_file = λ s a b. done s tt;
  add_owner_write = λ s path. done s tt;
  remove = λ s path. s;
  open_file = λ s path flags. done s 7;
  close = λ s fd. done s tt;
  read = λ s fd count. done s (take count (b'h' ∷ b'i' ∷ []));
  write = λ s fd bytes. done (s ++ bytes) (length bytes);
  lseek = λ s fd offset whence. done s 0;
}

test_host-IsPosix : IsPosix test_host
test_host-IsPosix = record {
  read_short =
      λ s s' fd count bytes e. ground (arith, length-take_le {A = ℕ} count (b'h' ∷ b'i' ∷ []));
  write_short = λ s s' fd bytes n e. ground arith;
}

abbrev pub file_name : Name
file_name = b'a' ∷ b'.' ∷ b'b' ∷ []

abbrev shared_file : OpenFile
shared_file = record {
  host_descriptor = 5;
  flags = 4;
  name = file_name;
  host_path = configured (b'd' ∷ b'/' ∷ b'a' ∷ []);
  shared = true;
}

-- The name at 40, and behind it a request to open it for reading and writing at 64.
abbrev pub test_memory : Memory
test_memory = write_le 4 (write_le 4 (write_le 4 (write_le 3 (λ a. 0) 40 0x622e61) 64 1) 72 40) 84 4

abbrev pub before_open : World test_host
before_open = record {
  id = 2;
  shared_files = (file_name, configured (b'd' ∷ b'/' ∷ b'a' ∷ [])) ∷ [];
  files = no_files;
  mem = test_memory;
  mem_size = 128;
  host = [];
}

abbrev with_shared_file : World test_host
with_shared_file = record before_open {
  files = record no_files { open_files = (3, shared_file) ∷ []; next_descriptor = 4 };
}

abbrev request_of : ℕ → FileRequest
request_of operation = record {
  operation = operation;
  descriptor = 3;
  buffer = 100;
  count = 2;
  offset = 0;
  flags = 0;
}

-- An open request that creates an entry under descriptor 3, and is answered with it.
opening : (answer_request test_host 64 before_open).1 ≡ 3
unfolding answer_request process_file_request open_file resolve_file open_resolved add_open_file
    emplace find find_shared are_valid_open_flags read_guest_file_name scan_name
    is_valid_guest_file_name read_le write_le
opening = refl

is_valid_guest_file_name-IsPlain_example :
    IsPlain file_name × ((c : ℕ) × (cs : Name) × (file_name ≡ c ∷ cs) × (c ≢ b'.'))
unfolding is_valid_guest_file_name
is_valid_guest_file_name-IsPlain_example = is_valid_guest_file_name-IsPlain file_name refl

read_guest_file_name_iff_example : read_guest_file_name test_memory 128 40 ≡ some file_name
unfolding is_valid_guest_file_name write_le
read_guest_file_name_iff_example = (read_guest_file_name_iff test_memory 128 40 file_name).1 (
  refl,
  (refl, omega arith, (refl, omega arith, (refl, omega arith, refl))),
  omega arith,
  omega arith,
)

are_valid_open_flags_iff_example : are_valid_open_flags 9 ≡ true
are_valid_open_flags_iff_example = (are_valid_open_flags_iff 9 (omega arith)).1 (inr (inl refl))

process_file_request-IsConfined_example :
    ((request_of 3).operation ≡ 3) × (100 ≤ 101) × (101 < 100 + 2) × (101 < 128)
unfolding process_file_request read_file has_read_access get_guest_memory find store_bytes write_le
process_file_request-IsConfined_example =
    process_file_request-IsConfined test_host test_host-IsPosix (request_of 3) with_shared_file 101
      (λ e. omega (arith, e))

write_file-IsOwn_example :
    (f' : OpenFile) × (find 3
        (write_file test_host (request_of 4) with_shared_file).0.files.open_files
      ≡ some f')
    × IsOwn test_host with_shared_file shared_file f'
    × (((request_of 4).count ≡ 0)
        ⊎ IsWritten test_host
            (request_of 4)
            test_memory
            f'
            (write_file test_host (request_of 4) with_shared_file))
unfolding write_file find has_write_access get_guest_memory load_bytes prepare_file_for_write update
write_file-IsOwn_example =
    write_file-IsOwn test_host (request_of 4) with_shared_file shared_file (tt, tt) refl
      (λ e. omega (arith, e))

abbrev asked : Io
asked = record { direction = io_out; size = 4; port = 0x278; count = 1; data_offset = 0 }

abbrev answered : Io
answered = record asked { direction = io_in }

abbrev test_area : Memory
test_area = store (λ a. 0) 0 64

handle_file_io-answers_example :
    (w1 : World test_host) × (area1 : Memory) × (area2 : Memory) × (handle_file_io test_host asked 8
        test_area before_open
      ≡ some (w1, area1))
    × (handle_file_io test_host answered 8 area1 w1
        ≡ some ((answer_request test_host (read_le 4 test_area 0) before_open).0, area2))
    × (read_le 4 area2 0 ≡ (answer_request test_host (read_le 4 test_area 0) before_open).1)
handle_file_io-answers_example =
    handle_file_io-answers test_host asked answered 8 test_area before_open
      (refl, refl, refl, omega arith) refl (refl, refl, refl, omega arith) refl (omega arith)

handle_file_io-IsValid_example : IsValid test_host (handle_out test_host 0 test_area before_open).0
unfolding handle_file_io
handle_file_io-IsValid_example =
    handle_file_io-IsValid test_host asked 8 test_area before_open
      (handle_out test_host 0 test_area before_open) (omega arith) (tt, tt, omega arith) refl
