-- ===== src/Startup.antt =====
-- host/src/main.cpp and host/src/vm_runner.cpp, `runVirtualMachine` up to its loop, with
-- `load_guest_image` of host/src/vm.c: what the command line makes of a guest's memory.
-- The image file is a parameter: how it can be read, its size and the bytes that `fread` finds.
pub mod Loaded
mod Tests
use Prim.Native.Nat.{◌^◌, ◌%◌}
use Prim.Native.String.{String}
use kvm_hypervisor.Base.{
  ℕ, ◌+◌, ◌-◌, ◌≤◌, ◌<◌, ◌≡◌, ◌≢◌, ◌⊎◌, refl, arith, Option, some, Bool, true, false, List, [], ◌∷◌,
  zero, suc, take, length, length-take_le, ltb, ◌==◌, if◌then◌else◌,
}
use kvm_hypervisor.Base.Memory.{Memory, store_bytes, store_bytes-elsewhere}
use kvm_hypervisor.LongMode.{setup_tables, guest_start_addr, pml4_addr}
use kvm_hypervisor.LongMode.Walk.{translate}
use kvm_hypervisor.LongMode.Identity.{translate-setup_tables}
use kvm_hypervisor.Cli.{CliResult, Config, ok, parse_arguments}
use kvm_hypervisor.Cli.Accepted.{parse_arguments-IsAccepted}

-- A file that cannot be opened or measured, and one with its size and what can be read of it.
pub data ImageFile : Type 0 where
  unreadable : ImageFile
  readable : ℕ → List ℕ → ImageFile

-- The memory after the call, and whether it succeeded. The difference is one of `uint64_t` words; a
-- short read fails after its bytes are stored.
unfoldable pub load_guest_image : ImageFile → ℕ → ℕ → Memory → Memory × Bool
load_guest_image unreadable mem_size load_addr mem = (mem, false)
load_guest_image (readable size contents) mem_size load_addr mem =
    if ltb ((mem_size + 2 ^ 64 - load_addr) % 2 ^ 64) size
    then (mem, false)
    else (store_bytes mem load_addr (take size contents), length (take size contents) == size)

load_guest_image-elsewhere :
    (file : ImageFile) (mem_size load_addr : ℕ) (mem : Memory) (a : ℕ)
    → load_addr ≤ mem_size
    → mem_size < 2 ^ 64
    → (load_guest_image file mem_size load_addr mem).0 a ≢ mem a
    → (load_addr ≤ a) × (a < mem_size)
unfolding load_guest_image
load_guest_image-elsewhere unreadable mem_size load_addr mem a low word h = absurd (h refl)
load_guest_image-elsewhere (readable size contents) mem_size load_addr mem a low word h = ground (
  arith,
  length-take_le size contents,
  store_bytes-elsewhere mem load_addr (take size contents) a,
)

-- With the memory and page size of an accepted command line, the page tables that the host sets up
-- map every address of guest memory to itself.
pub translate-parse_arguments :
    (arguments : List String) (r : CliResult) (mem : Memory) (va : ℕ)
    → parse_arguments arguments ≡ some r
    → r.status ≡ ok
    → va < r.config.memory_size
    → translate (setup_tables r.config.memory_size r.config.page_size mem) pml4_addr va ≡ some va
translate-parse_arguments arguments r mem va accepted good inside =
    let config = parse_arguments-IsAccepted arguments r accepted good in
    translate-setup_tables r.config.memory_size mem (omega (arith, config)) r.config.page_size va
      (omega (arith, config)) inside

-- With the memory size of an accepted command line, loading the guest image, whatever its file holds
-- and however the load ends, changes only bytes from the load address up to the end of guest memory.
pub load_guest_image-parse_arguments :
    (arguments : List String) (r : CliResult) (file : ImageFile) (mem : Memory) (a : ℕ)
    → parse_arguments arguments ≡ some r
    → r.status ≡ ok
    → (load_guest_image file r.config.memory_size guest_start_addr mem).0 a ≢ mem a
    → (guest_start_addr ≤ a) × (a < r.config.memory_size)
load_guest_image-parse_arguments arguments r file mem a accepted good changed =
    let config = parse_arguments-IsAccepted arguments r accepted good in
    load_guest_image-elsewhere file r.config.memory_size guest_start_addr mem a
      (omega (arith, config)) (omega (arith, config)) changed
