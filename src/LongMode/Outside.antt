-- ===== src/LongMode/Outside.antt =====
-- host/src/vm.c: the tables of `setup_long_mode` map nothing but guest memory, and stand where they
-- cannot meet the guest image.
use kvm_hypervisor.Base.{
  ℕ, zero, suc, ◌+◌, ◌*◌, ◌/◌, ◌%◌, ◌^◌, ◌≤◌, ◌<◌, ◌≡◌, refl, ◌∙◌, dec_lt, ◌⊎◌, inl, inr, arith,
  Bool-cases, ◌==◌, none,
}
use kvm_hypervisor.Base.Memory.{Memory, read_le, read_le-zero, write_le-out_of_range}
use kvm_hypervisor.LongMode.{
  setup_tables, setup_page_tables_4k, setup_page_tables_2m, fill_page_table, fill_directory_4k,
  fill_directory_2m, pt_addr_of, pml4_addr, pdpt_addr, pd_addr, page_size_2m, page_size_4k,
  guest_start_addr,
}
use kvm_hypervisor.LongMode.Tables.{fill_directory_4k-apart, fill_directory_2m-apart}
use kvm_hypervisor.LongMode.Walk.{entry_of, walk_directory, walk_pointers, translate}
use kvm_hypervisor.LongMode.Identity.{
  HasTables, upper, upper-apart, setup_4k-HasTables, setup_2m-HasTables,
}

-- The entries of the three tables that are not in use are zero.
record IsSparse (pages : ℕ) (mem : Memory) : Type 0 where
  used : HasTables mem
  pml4_rest : (i : ℕ) → 0 < i → i < 512 → read_le 8 mem (pml4_addr + 8 * i) ≡ 0
  pdpt_rest : (i : ℕ) → 0 < i → i < 512 → read_le 8 mem (pdpt_addr + 8 * i) ≡ 0
  pd_rest : (i : ℕ) → pages ≤ i → i < 512 → read_le 8 mem (pd_addr + 8 * i) ≡ 0

sparse_faults :
    (pages : ℕ) (mem : Memory) (va : ℕ)
    → IsSparse pages mem
    → pages * 2097152 ≤ va
    → va < 2 ^ 48
    → translate mem pml4_addr va ≡ none
unfolding translate walk_pointers walk_directory
sparse_faults pages mem va v out small = elim (dec_lt va (2 ^ 39)) [
  | no beyond ↦
      let e : entry_of mem pml4_addr 39 va ≡ 0 =
        v.pml4_rest (va / 2 ^ 39 % 2 ^ 9) (omega arith) (omega arith) in
      rw e
  | yes first ↦
      let i0 : va / 2 ^ 39 % 2 ^ 9 ≡ 0 = omega arith in
      let top : entry_of mem pml4_addr 39 va ≡ 0x2007 = rw i0 v.used.top in
      elim (dec_lt va (2 ^ 30)) [
        | no beyond ↦
            let e : entry_of mem pdpt_addr 30 va ≡ 0 =
              v.pdpt_rest (va / 2 ^ 30 % 2 ^ 9) (omega arith) (omega arith) in
            rw (top, e)
        | yes low ↦
            let i1 : va / 2 ^ 30 % 2 ^ 9 ≡ 0 = omega arith in
            let pointers : entry_of mem pdpt_addr 30 va ≡ 0x3007 = rw i1 v.used.pointers in
            let e : entry_of mem pd_addr 21 va ≡ 0 =
              v.pd_rest (va / 2 ^ 21 % 2 ^ 9) (omega arith) (omega arith) in
            rw (top, pointers, e)
      ]
]

module _ (mem_size : ℕ) (mem : Memory) (fits : mem_size ≤ 2 ^ 30)
    (blank : (a : ℕ) → mem a ≡ 0) where
  upper_zero :
      (q : ℕ)
      → (q + 8 ≤ pml4_addr) ⊎ (pml4_addr + 8 ≤ q)
      → (q + 8 ≤ pdpt_addr) ⊎ (pdpt_addr + 8 ≤ q)
      → read_le 8 (upper mem) q ≡ 0
  upper_zero q h k = upper-apart mem q h k ∙ read_le-zero 8 mem q blank

  small-IsSparse :
      IsSparse (mem_size / page_size_2m) (setup_page_tables_4k mem_size pd_addr (upper mem))
  unfolding setup_page_tables_4k
  small-IsSparse = record {
    used = setup_4k-HasTables mem_size mem fits;
    pml4_rest = λ i lo hi.
        fill_directory_4k-apart (mem_size / page_size_2m) 0 _ (pml4_addr + 8 * i) (omega arith)
          (omega arith) (omega arith)
        ∙ upper_zero (pml4_addr + 8 * i) (omega arith) (omega arith);
    pdpt_rest = λ i lo hi.
        fill_directory_4k-apart (mem_size / page_size_2m) 0 _ (pdpt_addr + 8 * i) (omega arith)
          (omega arith) (omega arith)
        ∙ upper_zero (pdpt_addr + 8 * i) (omega arith) (omega arith);
    pd_rest = λ i lo hi.
        fill_directory_4k-apart (mem_size / page_size_2m) 0 _ (pd_addr + 8 * i) (omega arith)
          (omega arith) (omega arith)
        ∙ upper_zero (pd_addr + 8 * i) (omega arith) (omega arith);
  }

  large-IsSparse :
      IsSparse (mem_size / page_size_2m) (setup_page_tables_2m mem_size pd_addr (upper mem))
  unfolding setup_page_tables_2m
  large-IsSparse = record {
    used = setup_2m-HasTables mem_size mem fits;
    pml4_rest = λ i lo hi.
        fill_directory_2m-apart (mem_size / page_size_2m) 0 _ (pml4_addr + 8 * i) (omega arith)
        ∙ upper_zero (pml4_addr + 8 * i) (omega arith) (omega arith);
    pdpt_rest = λ i lo hi.
        fill_directory_2m-apart (mem_size / page_size_2m) 0 _ (pdpt_addr + 8 * i) (omega arith)
        ∙ upper_zero (pdpt_addr + 8 * i) (omega arith) (omega arith);
    pd_rest = λ i lo hi.
        fill_directory_2m-apart (mem_size / page_size_2m) 0 _ (pd_addr + 8 * i) (omega arith)
        ∙ upper_zero (pd_addr + 8 * i) (omega arith) (omega arith);
  }

  -- In memory that was zero, as a fresh mapping is, every canonical low address outside guest memory
  -- faults.
  pub translate-setup_tables_outside :
      (page_size va : ℕ)
      → mem_size ≤ va
      → va < 2 ^ 48
      → translate (setup_tables mem_size page_size mem) pml4_addr va ≡ none
  unfolding setup_tables
  translate-setup_tables_outside page_size va out small =
      elim (Bool-cases (page_size == page_size_4k)) [
        | inl by_4k ↦ rw by_4k (sparse_faults _ _ va small-IsSparse (omega arith) small)
        | inr by_2m ↦ rw by_2m (sparse_faults _ _ va large-IsSparse (omega arith) small)
      ]

fill_page_table-elsewhere :
    (rounds pt pd_index i : ℕ) (mem : Memory) (a : ℕ)
    → (a < pt + 8 * i) ⊎ (pt + 8 * (i + rounds) ≤ a)
    → fill_page_table rounds pt pd_index i mem a ≡ mem a
unfolding fill_page_table
fill_page_table-elsewhere zero pt pd_index i mem a h = refl
fill_page_table-elsewhere (suc rounds) pt pd_index i mem a h =
    fill_page_table-elsewhere rounds pt pd_index (i + 1) _ a (omega arith)
    ∙ write_le-out_of_range 8 mem (pt + 8 * i) _ a (omega arith)

fill_directory_4k-elsewhere :
    (rounds i : ℕ) (mem : Memory) (a : ℕ)
    → i + rounds ≤ 512
    → (a < pd_addr) ⊎ (pt_addr_of (i + rounds) ≤ a)
    → fill_directory_4k rounds pd_addr i mem a ≡ mem a
unfolding fill_directory_4k
fill_directory_4k-elsewhere zero i mem a top h = refl
fill_directory_4k-elsewhere (suc rounds) i mem a top h =
    fill_directory_4k-elsewhere rounds (i + 1) _ a (omega arith) (omega arith)
    ∙ fill_page_table-elsewhere 512 (pt_addr_of i) i 0 _ a (omega arith)
    ∙ write_le-out_of_range 8 mem (pd_addr + 8 * i) _ a (omega arith)

fill_directory_2m-elsewhere :
    (rounds i : ℕ) (mem : Memory) (a : ℕ)
    → (a < pd_addr) ⊎ (pd_addr + 8 * (i + rounds) ≤ a)
    → fill_directory_2m rounds pd_addr i mem a ≡ mem a
unfolding fill_directory_2m
fill_directory_2m-elsewhere zero i mem a h = refl
fill_directory_2m-elsewhere (suc rounds) i mem a h =
    fill_directory_2m-elsewhere rounds (i + 1) _ a (omega arith)
    ∙ write_le-out_of_range 8 mem (pd_addr + 8 * i) _ a (omega arith)

-- With at most 8 MiB of memory the tables stand below the address at which the guest image is
-- loaded, and leave the first page alone.
pub setup_tables-elsewhere :
    (mem_size page_size : ℕ) (mem : Memory) (a : ℕ)
    → mem_size ≤ 8 * 1024 * 1024
    → (a < pml4_addr) ⊎ (guest_start_addr ≤ a)
    → setup_tables mem_size page_size mem a ≡ mem a
unfolding setup_tables setup_page_tables_4k setup_page_tables_2m
setup_tables-elsewhere mem_size page_size mem a fits h =
    elim (Bool-cases (page_size == page_size_4k)) [
      | inl small ↦ rw small (
          fill_directory_4k-elsewhere (mem_size / page_size_2m) 0 _ a (omega arith) (omega arith)
          ∙ tops)
      | inr large ↦
          rw large
            (fill_directory_2m-elsewhere (mem_size / page_size_2m) 0 _ a (omega arith) ∙ tops)
    ]
  where
    tops : upper mem a ≡ mem a
    tops =
        write_le-out_of_range 8 _ pdpt_addr 0x3007 a (omega arith)
        ∙ write_le-out_of_range 8 mem pml4_addr 0x2007 a (omega arith)
