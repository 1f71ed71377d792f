-- ===== src/LongMode/Kept.antt =====
-- host/src/vm.c: the tables of `setup_long_mode` in a memory that has since changed elsewhere. For a
-- guest of at most 8 MiB they lie below the address at which its image starts.
use kvm_hypervisor.Base.{
  ℕ, ◌+◌, ◌*◌, ◌/◌, ◌%◌, ◌≤◌, ◌<◌, ◌≡◌, refl, ◌∙◌, inl, inr, arith, Bool-cases, ◌==◌, some,
}
use kvm_hypervisor.Base.Memory.{Memory, read_le, read_le-congr}
use kvm_hypervisor.LongMode.{
  setup_tables, setup_page_tables_4k, setup_page_tables_2m, pt_addr_of, pml4_addr, pdpt_addr,
  pd_addr, page_size_2m, page_size_4k, guest_start_addr,
}
use kvm_hypervisor.LongMode.Tables.{
  fill_directory_4k-directory, fill_directory_4k-table, fill_directory_2m-entry,
}
use kvm_hypervisor.LongMode.Walk.{walk_directory, translate}
use kvm_hypervisor.LongMode.Identity.{
  upper, HasTables, translate-directory, walk_small, walk_large, setup_4k-HasTables,
  setup_2m-HasTables,
}

-- Two memories agree below the start of the image.
abbrev pub Agrees : Memory → Memory → Type 0
Agrees m m' = (a : ℕ) → a < guest_start_addr → m a ≡ m' a

read_le-Agrees :
    (m m' : Memory) (q : ℕ)
    → Agrees m' m
    → q + 8 ≤ guest_start_addr
    → read_le 8 m' q ≡ read_le 8 m q
read_le-Agrees m m' q same low = read_le-congr 8 m' m q (λ a lo hi. same a (omega arith))

HasTables-Agrees : (m m' : Memory) → Agrees m' m → HasTables m → HasTables m'
HasTables-Agrees m m' same t = record {
  top = read_le-Agrees m m' pml4_addr same (omega arith) ∙ t.top;
  pointers = read_le-Agrees m m' pdpt_addr same (omega arith) ∙ t.pointers;
}

module _ (mem_size : ℕ) (mem m' : Memory) (fits : mem_size ≤ 4 * page_size_2m) where
  abbrev pages : ℕ
  pages = mem_size / page_size_2m

  small_pages :
      (va : ℕ)
      → mem_size % page_size_2m ≡ 0
      → va < mem_size
      → Agrees m' (setup_page_tables_4k mem_size pd_addr (upper mem))
      → walk_directory m' pd_addr va ≡ some va
  unfolding setup_page_tables_4k
  small_pages va whole inside same =
      let j = va / 2097152 in
      let e = va / 4096 % 512 in
      walk_small m' va j e refl refl (omega arith)
        (read_le-Agrees _ m' (pd_addr + 8 * j) same (omega arith)
          ∙ fill_directory_4k-directory pages 0 _ j (omega arith) (omega arith) (omega arith))
        (read_le-Agrees _ m' (pt_addr_of j + 8 * e) same (omega arith)
          ∙ fill_directory_4k-table pages 0 _ j e (omega arith) (omega arith) (omega arith)
              (omega arith))

  large_pages :
      (va : ℕ)
      → mem_size % page_size_2m ≡ 0
      → va < mem_size
      → Agrees m' (setup_page_tables_2m mem_size pd_addr (upper mem))
      → walk_directory m' pd_addr va ≡ some va
  unfolding setup_page_tables_2m
  large_pages va whole inside same =
      let j = va / 2097152 in
      walk_large m' va j refl (omega arith) (
        read_le-Agrees _ m' (pd_addr + 8 * j) same (omega arith)
        ∙ fill_directory_2m-entry pages 0 _ j (omega arith) (omega arith) (omega arith))

  -- The tables still map every address of guest memory to itself.
  pub translate-Agrees :
      (page_size va : ℕ)
      → mem_size % page_size_2m ≡ 0
      → va < mem_size
      → Agrees m' (setup_tables mem_size page_size mem)
      → translate m' pml4_addr va ≡ some va
  unfolding setup_tables
  translate-Agrees page_size va whole inside same = elim (Bool-cases (page_size == page_size_4k)) [
    | inl small ↦
        let here : Agrees m' (setup_page_tables_4k mem_size pd_addr (upper mem)) =
          ground (arith, same) in
        translate-directory m' va
          (HasTables-Agrees _ m' here (setup_4k-HasTables mem_size mem (omega arith))) (omega arith)
        ∙ small_pages va whole inside here
    | inr large ↦
        let here : Agrees m' (setup_page_tables_2m mem_size pd_addr (upper mem)) =
          ground (arith, same) in
        translate-directory m' va
          (HasTables-Agrees _ m' here (setup_2m-HasTables mem_size mem (omega arith))) (omega arith)
        ∙ large_pages va whole inside here
  ]
