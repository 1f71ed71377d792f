-- ===== src/LongMode/Identity.antt =====
-- host/src/vm.c: with the tables of `setup_long_mode` the processor maps guest memory to itself.
use kvm_hypervisor.Base.{
  ℕ, ◌+◌, ◌*◌, ◌/◌, ◌%◌, ◌^◌, ◌≤◌, ◌<◌, ◌≡◌, refl, ◌∙◌, ◌⊎◌, inl, inr, arith, Bool-cases, ◌==◌,
  some,
}
use kvm_hypervisor.Base.Memory.{Memory, read_le, write_le, read_le-write_le, read_le-write_le_apart}
use kvm_hypervisor.LongMode.{
  setup_tables, setup_page_tables_4k, setup_page_tables_2m, pt_addr_of, pml4_addr, pdpt_addr,
  pd_addr, page_size_2m, page_size_4k, upper_entry,
}
use kvm_hypervisor.LongMode.Tables.{
  fill_directory_4k-apart, fill_directory_4k-directory, fill_directory_4k-table,
  fill_directory_2m-apart, fill_directory_2m-entry,
}
use kvm_hypervisor.LongMode.Walk.{
  frame, entry_of, walk_table, walk_directory, walk_pointers, translate,
}

-- The upper tables, as `setup_long_mode` writes them before the directory.
abbrev pub upper : Memory → Memory
upper mem =
    write_le 8 (write_le 8 mem pml4_addr (upper_entry pdpt_addr)) pdpt_addr (upper_entry pd_addr)

upper-pml4 : (mem : Memory) → read_le 8 (upper mem) pml4_addr ≡ 0x2007
upper-pml4 mem =
    read_le-write_le_apart 8 8 _ pdpt_addr pml4_addr 0x3007 (omega arith)
    ∙ read_le-write_le 8 mem pml4_addr 0x2007 (omega arith)

upper-pdpt : (mem : Memory) → read_le 8 (upper mem) pdpt_addr ≡ 0x3007
upper-pdpt mem = read_le-write_le 8 _ pdpt_addr 0x3007 (omega arith)

pub upper-apart :
    (mem : Memory) (q : ℕ)
    → (q + 8 ≤ pml4_addr) ⊎ (pml4_addr + 8 ≤ q)
    → (q + 8 ≤ pdpt_addr) ⊎ (pdpt_addr + 8 ≤ q)
    → read_le 8 (upper mem) q ≡ read_le 8 mem q
upper-apart mem q h k =
    read_le-write_le_apart 8 8 _ pdpt_addr q 0x3007 k
    ∙ read_le-write_le_apart 8 8 mem pml4_addr q 0x2007 h

-- What stands in the two upper tables.
pub record HasTables (mem : Memory) : Type 0 where
  pub top : read_le 8 mem pml4_addr ≡ 0x2007
  pub pointers : read_le 8 mem pdpt_addr ≡ 0x3007

-- Below 1 GiB the two upper levels lead to the directory.
pub translate-directory :
    (mem : Memory) (va : ℕ)
    → HasTables mem
    → va < 2 ^ 30
    → translate mem pml4_addr va ≡ walk_directory mem pd_addr va
unfolding translate walk_pointers
translate-directory mem va t small = rw (top, pointers) refl
  where
    top : entry_of mem pml4_addr 39 va ≡ 0x2007
    top = let e : va / 2 ^ 39 % 2 ^ 9 ≡ 0 = omega arith in rw e t.top

    pointers : entry_of mem pdpt_addr 30 va ≡ 0x3007
    pointers = let e : va / 2 ^ 30 % 2 ^ 9 ≡ 0 = omega arith in rw e t.pointers

-- A directory entry for a page table leads to the page of that table.
pub walk_small :
    (mem : Memory) (va j e : ℕ)
    → j ≡ va / 2097152
    → e ≡ va / 4096 % 512
    → j < 512
    → read_le 8 mem (pd_addr + 8 * j) ≡ (4 + j) * 4096 + 7
    → read_le 8 mem (pt_addr_of j + 8 * e) ≡ (j * 512 + e) * 4096 + 7
    → walk_directory mem pd_addr va ≡ some va
unfolding walk_directory walk_table
walk_small mem va j e at_j at_e small dir table = rw (first, second) (ground arith)
  where
    first : entry_of mem pd_addr 21 va ≡ (4 + j) * 4096 + 7
    first = let i : va / 2 ^ 21 % 2 ^ 9 ≡ j = omega arith in rw i dir

    second : entry_of mem (frame ((4 + j) * 4096 + 7)) 12 va ≡ (j * 512 + e) * 4096 + 7
    second =
        let at : frame ((4 + j) * 4096 + 7) + 8 * (va / 2 ^ 12 % 2 ^ 9) ≡ pt_addr_of j + 8 * e =
          omega arith in
        rw at table

pub walk_large :
    (mem : Memory) (va j : ℕ)
    → j ≡ va / 2097152
    → j < 512
    → read_le 8 mem (pd_addr + 8 * j) ≡ j * 2097152 + 135
    → walk_directory mem pd_addr va ≡ some va
unfolding walk_directory walk_table
walk_large mem va j at_j small dir = rw first (ground arith)
  where
    first : entry_of mem pd_addr 21 va ≡ j * 2097152 + 135
    first = let i : va / 2 ^ 21 % 2 ^ 9 ≡ j = omega arith in rw i dir

module _ (mem_size : ℕ) (mem : Memory) (fits : mem_size ≤ 2 ^ 30) where
  abbrev pages : ℕ
  pages = mem_size / page_size_2m

  pub setup_4k-HasTables : HasTables (setup_page_tables_4k mem_size pd_addr (upper mem))
  unfolding setup_page_tables_4k
  setup_4k-HasTables = record {
    top =
        fill_directory_4k-apart pages 0 _ pml4_addr (omega arith) (omega arith) (omega arith)
        ∙ upper-pml4 mem;
    pointers =
        fill_directory_4k-apart pages 0 _ pdpt_addr (omega arith) (omega arith) (omega arith)
        ∙ upper-pdpt mem;
  }

  pub setup_2m-HasTables : HasTables (setup_page_tables_2m mem_size pd_addr (upper mem))
  unfolding setup_page_tables_2m
  setup_2m-HasTables = record {
    top = fill_directory_2m-apart pages 0 _ pml4_addr (omega arith) ∙ upper-pml4 mem;
    pointers = fill_directory_2m-apart pages 0 _ pdpt_addr (omega arith) ∙ upper-pdpt mem;
  }

  small_pages :
      (va : ℕ)
      → mem_size % page_size_2m ≡ 0
      → va < mem_size
      → walk_directory (setup_page_tables_4k mem_size pd_addr (upper mem)) pd_addr va ≡ some va
  unfolding setup_page_tables_4k
  small_pages va whole inside =
      let j = va / 2097152 in
      let e = va / 4096 % 512 in
      walk_small _ va j e refl refl (omega arith)
        (fill_directory_4k-directory pages 0 _ j (omega arith) (omega arith) (omega arith))
        (fill_directory_4k-table pages 0 _ j e (omega arith) (omega arith) (omega arith)
          (omega arith))

  large_pages :
      (va : ℕ)
      → mem_size % page_size_2m ≡ 0
      → va < mem_size
      → walk_directory (setup_page_tables_2m mem_size pd_addr (upper mem)) pd_addr va ≡ some va
  unfolding setup_page_tables_2m
  large_pages va whole inside =
      let j = va / 2097152 in
      walk_large _ va j refl (omega arith)
        (fill_directory_2m-entry pages 0 _ j (omega arith) (omega arith) (omega arith))

  -- Whatever the page size, every address of guest memory is mapped to itself, if memory is a whole
  -- number of 2 MiB pages and at most 1 GiB.
  pub translate-setup_tables :
      (page_size va : ℕ)
      → mem_size % page_size_2m ≡ 0
      → va < mem_size
      → translate (setup_tables mem_size page_size mem) pml4_addr va ≡ some va
  unfolding setup_tables
  translate-setup_tables page_size va whole inside = elim (Bool-cases (page_size == page_size_4k)) [
    | inl small ↦
        rw small
          (translate-directory _ va setup_4k-HasTables (omega arith) ∙ small_pages va whole inside)
    | inr large ↦
        rw large
          (translate-directory _ va setup_2m-HasTables (omega arith) ∙ large_pages va whole inside)
  ]
