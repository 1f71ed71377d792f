-- ===== src/LongMode/Tests.antt =====
-- Tests of the page tables, and their theorems at concrete sizes.
use kvm_hypervisor.Base.{◌*◌, ◌≡◌, refl, arith, none, some}
use kvm_hypervisor.Base.Memory.{Memory, read_le, write_le}
use kvm_hypervisor.LongMode.{
  setup_tables, fill_page_table, fill_directory_2m, setup_page_tables_2m, pml4_addr, mapped,
}
use kvm_hypervisor.LongMode.Walk.{translate, walk_pointers, walk_directory, walk_table}
use kvm_hypervisor.LongMode.Identity.{translate-setup_tables}
use kvm_hypervisor.LongMode.Outside.{translate-setup_tables_outside, setup_tables-elsewhere}

abbrev blank : Memory
blank _ = 0

-- The last of three entries of the second page table.
third_entry : read_le 8 (fill_page_table 3 0x5000 1 0 blank) 0x5010 ≡ 0x20_2007
unfolding read_le write_le fill_page_table mapped
third_entry = refl

-- 4 MiB of memory in 2 MiB pages, all computed.
large_page :
    translate (setup_tables (4 * 1024 * 1024) (2 * 1024 * 1024) blank) pml4_addr 0x23_4567
    ≡ some 0x23_4567
unfolding translate walk_pointers walk_directory walk_table setup_tables setup_page_tables_2m
    fill_directory_2m mapped read_le write_le
large_page = refl

translate-setup_tables_example :
    translate (setup_tables (8 * 1024 * 1024) 4096 blank) pml4_addr 0x7f_ffff ≡ some 0x7f_ffff
translate-setup_tables_example =
    translate-setup_tables (8 * 1024 * 1024) blank (omega arith) 4096 0x7f_ffff (omega arith)
      (omega arith)

translate-setup_tables_outside_example :
    translate (setup_tables (2 * 1024 * 1024) 4096 blank) pml4_addr 0x20_0000 ≡ none
translate-setup_tables_outside_example =
    translate-setup_tables_outside (2 * 1024 * 1024) blank (omega arith) (λ _. refl) 4096 0x20_0000
      (omega arith) (omega arith)

setup_tables-elsewhere_example : setup_tables (8 * 1024 * 1024) 4096 blank 0x8000 ≡ 0
setup_tables-elsewhere_example =
    setup_tables-elsewhere (8 * 1024 * 1024) 4096 blank 0x8000 (omega arith) (omega arith)
