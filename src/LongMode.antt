-- ===== src/LongMode.antt =====
-- host/src/vm.c, `setup_long_mode` and its helpers, with the constants of host/inc/vm.h: the page
-- tables and control registers with which a guest starts. Guest memory is a byte memory; a store
-- through a `uint64_t *` is a little-endian word of eight bytes. No address or product here comes
-- near 2^64 for the memory sizes that the command line admits, so the arithmetic is plain.
mod Entries
pub mod Walk
mod Tables
pub mod Identity
pub mod Outside
pub mod Kept
mod Tests
use Prim.Native.Nat.{bit_or}
use kvm_hypervisor.Base.{ℕ, zero, suc, ◌+◌, ◌*◌, ◌/◌, ◌==◌, if◌then◌else◌}
use kvm_hypervisor.Base.Memory.{Memory, write_le}

abbrev pub guest_start_addr : ℕ
guest_start_addr = 0x8000

abbrev pub page_size_4k : ℕ
page_size_4k = 4 * 1024

abbrev pub page_size_2m : ℕ
page_size_2m = 2 * 1024 * 1024

abbrev pub page_table_entries : ℕ
page_table_entries = 512

abbrev pub pde64_present : ℕ
pde64_present = 1

abbrev pub pde64_rw : ℕ
pde64_rw = 2

abbrev pub pde64_user : ℕ
pde64_user = 4

abbrev pub pde64_ps : ℕ
pde64_ps = 0x80

abbrev pub cr0_pe : ℕ
cr0_pe = 1

abbrev pub cr0_pg : ℕ
cr0_pg = 0x8000_0000

abbrev pub cr4_pae : ℕ
cr4_pae = 0x20

abbrev pub efer_lme : ℕ
efer_lme = 0x100

abbrev pub efer_lma : ℕ
efer_lma = 0x400

-- The fields of `struct kvm_segment` and `struct kvm_sregs` that the code sets.
pub record Segment : Type 0 where
  pub base : ℕ
  pub limit : ℕ
  pub present : ℕ
  pub type : ℕ
  pub dpl : ℕ
  pub db : ℕ
  pub s : ℕ
  pub l : ℕ
  pub g : ℕ

pub record Sregs : Type 0 where
  pub cs : Segment
  pub ds : Segment
  pub es : Segment
  pub fs : Segment
  pub gs : Segment
  pub ss : Segment
  pub cr0 : ℕ
  pub cr3 : ℕ
  pub cr4 : ℕ
  pub efer : ℕ

abbrev pub code_segment : Segment
code_segment = record {
  base = 0;
  limit = 0xffff_ffff;
  present = 1;
  type = 11;
  dpl = 0;
  db = 0;
  s = 1;
  l = 1;
  g = 1;
}

abbrev pub data_segment : Segment
data_segment = record code_segment { type = 3; l = 0 }

unfoldable pub setup_segments_64 : Sregs → Sregs
setup_segments_64 sregs = record sregs {
  cs = code_segment;
  ds = data_segment;
  es = data_segment;
  fs = data_segment;
  gs = data_segment;
  ss = data_segment;
}

-- `addr | PDE64_PRESENT | PDE64_RW | PDE64_USER`
pub mapped : ℕ → ℕ
mapped addr = bit_or (bit_or (bit_or addr pde64_present) pde64_rw) pde64_user

-- The inner loop of `setup_page_tables_4k`, with the rounds left, from entry `pt_index` on.
pub fill_page_table : ℕ → ℕ → ℕ → ℕ → Memory → Memory
fill_page_table zero pt_addr pd_index pt_index mem = mem
fill_page_table (suc rounds) pt_addr pd_index pt_index mem =
    fill_page_table rounds pt_addr pd_index (pt_index + 1) (
      write_le 8 mem (pt_addr + 8 * pt_index)
        (mapped ((pd_index * page_table_entries + pt_index) * page_size_4k)))

-- The address of the page table of a directory entry.
abbrev pub pt_addr_of : ℕ → ℕ
pt_addr_of pd_index = 0x4000 + pd_index * page_size_4k

-- The outer loop, with the rounds left, from directory entry `pd_index` on.
pub fill_directory_4k : ℕ → ℕ → ℕ → Memory → Memory
fill_directory_4k zero pd_addr pd_index mem = mem
fill_directory_4k (suc rounds) pd_addr pd_index mem =
    fill_directory_4k rounds pd_addr (pd_index + 1) (
      fill_page_table page_table_entries (pt_addr_of pd_index) pd_index 0
        (write_le 8 mem (pd_addr + 8 * pd_index) (mapped (pt_addr_of pd_index))))

pub setup_page_tables_4k : ℕ → ℕ → Memory → Memory
setup_page_tables_4k mem_size pd_addr mem =
    fill_directory_4k (mem_size / page_size_2m) pd_addr 0 mem

-- The loop of `setup_page_tables_2m`, with the rounds left, from directory entry `i` on.
pub fill_directory_2m : ℕ → ℕ → ℕ → Memory → Memory
fill_directory_2m zero pd_addr i mem = mem
fill_directory_2m (suc rounds) pd_addr i mem =
    fill_directory_2m rounds pd_addr (i + 1)
      (write_le 8 mem (pd_addr + 8 * i) (bit_or (mapped (i * page_size_2m)) pde64_ps))

pub setup_page_tables_2m : ℕ → ℕ → Memory → Memory
setup_page_tables_2m mem_size pd_addr mem =
    fill_directory_2m (mem_size / page_size_2m) pd_addr 0 mem

abbrev pub pml4_addr : ℕ
pml4_addr = 0x1000

abbrev pub pdpt_addr : ℕ
pdpt_addr = 0x2000

abbrev pub pd_addr : ℕ
pd_addr = 0x3000

-- `PDE64_PRESENT | PDE64_RW | PDE64_USER | addr`, the two upper tables' entries.
abbrev pub upper_entry : ℕ → ℕ
upper_entry addr = bit_or (bit_or (bit_or pde64_present pde64_rw) pde64_user) addr

-- The two upper tables, then the directory by the page size.
pub setup_tables : ℕ → ℕ → Memory → Memory
setup_tables mem_size page_size mem =
    let upper =
      write_le 8 (write_le 8 mem pml4_addr (upper_entry pdpt_addr)) pdpt_addr
        (upper_entry pd_addr) in
    if page_size == page_size_4k
    then setup_page_tables_4k mem_size pd_addr upper
    else setup_page_tables_2m mem_size pd_addr upper

unfoldable pub setup_long_mode : ℕ → ℕ → Memory → Sregs → Memory × Sregs
setup_long_mode mem_size page_size mem sregs = (
  setup_tables mem_size page_size mem,
  setup_segments_64 (record sregs {
    cr3 = pml4_addr;
    cr4 = cr4_pae;
    cr0 = bit_or cr0_pe cr0_pg;
    efer = bit_or efer_lme efer_lma;
  }),
)
