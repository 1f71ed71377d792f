-- ===== src/FileIo/State.antt =====
-- host/inc/file_io.hpp: the open files of a VM and the results that its guest has not read yet, with
-- common/file_protocol.h: the request that stands in guest memory.
-- `int32_t` values are held as bit patterns. The map of open files is the list of its entries in
-- the order in which a loop visits them; the source leaves that order open.
use kvm_hypervisor.Base.{
  ℕ, ◌+◌, Bool, true, false, ◌&&◌, Option, none, some, List, [], ◌∷◌, ◌==◌, if◌then◌else◌,
}
use kvm_hypervisor.Base.Int.{Int32}
use kvm_hypervisor.Base.Memory.{Memory, read_le}
use kvm_hypervisor.FileIo.Host.{Name, HostPath, Host}

-- `struct file_request`: six words of four bytes.
pub record FileRequest : Type 0 where
  pub operation : ℕ
  pub descriptor : Int32
  pub buffer : ℕ
  pub count : Int32
  pub offset : Int32
  pub flags : Int32

abbrev pub file_request_size : ℕ
file_request_size = 24

abbrev pub decode_request : Memory → ℕ → FileRequest
decode_request mem p = record {
  operation = read_le 4 mem p;
  descriptor = read_le 4 mem (p + 4);
  buffer = read_le 4 mem (p + 8);
  count = read_le 4 mem (p + 12);
  offset = read_le 4 mem (p + 16);
  flags = read_le 4 mem (p + 20);
}

pub record OpenFile : Type 0 where
  pub host_descriptor : ℕ
  pub flags : Int32
  pub name : Name
  pub host_path : HostPath
  pub shared : Bool

abbrev pub OpenFiles : Type 0
OpenFiles = List (Int32 × OpenFile)

pub record FileState : Type 0 where
  pub open_files : OpenFiles
  -- `pendingResults`, with its back first.
  pub pending_results : List Int32
  pub next_descriptor : Int32

-- A fresh `FileState`.
abbrev pub no_files : FileState
no_files = record { open_files = []; pending_results = []; next_descriptor = 3 }

-- What a file operation works on: the VM's number and the shared files of its `GuestContext`, its
-- file state, the guest memory with its size, and the host.
pub record World (H : Host) : Type 0 where
  pub id : ℕ
  pub shared_files : List (Name × HostPath)
  pub files : FileState
  pub mem : Memory
  pub mem_size : ℕ
  pub host : H.State

abbrev pub same_name : Name → Name → Bool
same_name [] [] = true
same_name [] (d ∷ ds) = false
same_name (c ∷ cs) [] = false
same_name (c ∷ cs) (d ∷ ds) = c == d && same_name cs ds

-- `openFiles.find`, `openFiles.emplace`, which keeps an entry that is there, `openFiles.erase`,
-- and an assignment through a pointer to an entry.
unfoldable pub find : Int32 → OpenFiles → Option OpenFile
find d [] = none
find d ((e, file) ∷ files) = if e == d then some file else find d files

unfoldable pub emplace : Int32 → OpenFile → OpenFiles → OpenFiles
emplace d file files = elim (find d files) [ none ↦ (d, file) ∷ files | some old ↦ files ]

unfoldable pub erase : Int32 → OpenFiles → OpenFiles
erase d [] = []
erase d ((e, file) ∷ files) = let rest = erase d files in if e == d then files else (e, file) ∷ rest

unfoldable pub update : Int32 → (OpenFile → OpenFile) → OpenFiles → OpenFiles
update d f [] = []
update d f ((e, file) ∷ files) =
    let rest = update d f files in if e == d then (e, f file) ∷ files else (e, file) ∷ rest

-- `sharedFiles.find`.
unfoldable pub find_shared : Name → List (Name × HostPath) → Option HostPath
find_shared name [] = none
find_shared name ((n, path) ∷ rest) = if same_name n name then some path else find_shared name rest
