-- ===== src/LongMode/Tables.antt =====
-- host/src/vm.c: which word stands where after the loops that fill the page tables.
use kvm_hypervisor.Base.{ℕ, zero, suc, ◌+◌, ◌*◌, ◌^◌, ◌≤◌, ◌<◌, ◌≡◌, refl, ◌∙◌, dec_lt, ◌⊎◌, arith}
use kvm_hypervisor.Base.Memory.{Memory, read_le, read_le-write_le, read_le-write_le_apart}
use kvm_hypervisor.LongMode.{
  fill_page_table, fill_directory_4k, fill_directory_2m, pt_addr_of, pd_addr,
}
use kvm_hypervisor.LongMode.Entries.{mapped_lem, large_lem}

-- The loop over a table changes no word outside it.
pub fill_page_table-apart :
    (rounds pt pd_index i : ℕ) (mem : Memory) (q : ℕ)
    → (q + 8 ≤ pt + 8 * i) ⊎ (pt + 8 * (i + rounds) ≤ q)
    → read_le 8 (fill_page_table rounds pt pd_index i mem) q ≡ read_le 8 mem q
unfolding fill_page_table
fill_page_table-apart zero pt pd_index i mem q h = refl
fill_page_table-apart (suc rounds) pt pd_index i mem q h =
    fill_page_table-apart rounds pt pd_index (i + 1) _ q (omega arith)
    ∙ read_le-write_le_apart 8 8 mem (pt + 8 * i) q _ (omega arith)

pub fill_page_table-entry :
    (rounds pt pd_index i : ℕ) (mem : Memory) (j : ℕ)
    → i ≤ j
    → j < i + rounds
    → pd_index * 512 + j < 2 ^ 32
    → read_le 8 (fill_page_table rounds pt pd_index i mem) (pt + 8 * j)
      ≡ (pd_index * 512 + j) * 4096 + 7
unfolding fill_page_table
fill_page_table-entry zero pt pd_index i mem j lo hi small = absurd (omega arith)
fill_page_table-entry (suc rounds) pt pd_index i mem j lo hi small = elim (dec_lt i j) [
  | yes later ↦
      fill_page_table-entry rounds pt pd_index (i + 1) _ j (omega arith) (omega arith) small
  | no first ↦
      let e : i ≡ j = omega arith in
      fill_page_table-apart rounds pt pd_index (i + 1) _ (pt + 8 * j) (omega arith)
      ∙ rw (e, mapped_lem (pd_index * 512 + j))
          (read_le-write_le 8 mem (pt + 8 * j) ((pd_index * 512 + j) * 4096 + 7) (omega arith))
]

-- The loop over the directory changes only its entries and their tables.
pub fill_directory_4k-apart :
    (rounds i : ℕ) (mem : Memory) (q : ℕ)
    → i + rounds ≤ 512
    → (q + 8 ≤ pd_addr + 8 * i) ⊎ (pd_addr + 8 * (i + rounds) ≤ q)
    → (q + 8 ≤ pt_addr_of i) ⊎ (pt_addr_of (i + rounds) ≤ q)
    → read_le 8 (fill_directory_4k rounds pd_addr i mem) q ≡ read_le 8 mem q
unfolding fill_directory_4k
fill_directory_4k-apart zero i mem q top h k = refl
fill_directory_4k-apart (suc rounds) i mem q top h k =
    fill_directory_4k-apart rounds (i + 1) _ q (omega arith) (omega arith) (omega arith)
    ∙ fill_page_table-apart 512 (pt_addr_of i) i 0 _ q (omega arith)
    ∙ read_le-write_le_apart 8 8 mem (pd_addr + 8 * i) q _ (omega arith)

pub fill_directory_4k-directory :
    (rounds i : ℕ) (mem : Memory) (j : ℕ)
    → i + rounds ≤ 512
    → i ≤ j
    → j < i + rounds
    → read_le 8 (fill_directory_4k rounds pd_addr i mem) (pd_addr + 8 * j) ≡ (4 + j) * 4096 + 7
unfolding fill_directory_4k
fill_directory_4k-directory zero i mem j top lo hi = absurd (omega arith)
fill_directory_4k-directory (suc rounds) i mem j top lo hi = elim (dec_lt i j) [
  | yes later ↦
      fill_directory_4k-directory rounds (i + 1) _ j (omega arith) (omega arith) (omega arith)
  | no first ↦
      let e : i ≡ j = omega arith in
      let at : pt_addr_of j ≡ (4 + j) * 4096 = omega arith in
      fill_directory_4k-apart rounds (i + 1) _ (pd_addr + 8 * j) (omega arith) (omega arith)
        (omega arith)
      ∙ fill_page_table-apart 512 (pt_addr_of i) i 0 _ (pd_addr + 8 * j) (omega arith)
      ∙ rw (e, at, mapped_lem (4 + j))
          (read_le-write_le 8 mem (pd_addr + 8 * j) ((4 + j) * 4096 + 7) (omega arith))
]

pub fill_directory_4k-table :
    (rounds i : ℕ) (mem : Memory) (j e : ℕ)
    → i + rounds ≤ 512
    → i ≤ j
    → j < i + rounds
    → e < 512
    → read_le 8 (fill_directory_4k rounds pd_addr i mem) (pt_addr_of j + 8 * e)
      ≡ (j * 512 + e) * 4096 + 7
unfolding fill_directory_4k
fill_directory_4k-table zero i mem j e top lo hi small = absurd (omega arith)
fill_directory_4k-table (suc rounds) i mem j e top lo hi small = elim (dec_lt i j) [
  | yes later ↦
      fill_directory_4k-table rounds (i + 1) _ j e (omega arith) (omega arith) (omega arith) small
  | no first ↦
      let same : i ≡ j = omega arith in
      fill_directory_4k-apart rounds (i + 1) _ (pt_addr_of j + 8 * e) (omega arith) (omega arith)
        (omega arith)
      ∙ rw same (
          fill_page_table-entry 512 (pt_addr_of j) j 0 _ e (omega arith) (omega arith)
            (omega arith))
]

pub fill_directory_2m-apart :
    (rounds i : ℕ) (mem : Memory) (q : ℕ)
    → (q + 8 ≤ pd_addr + 8 * i) ⊎ (pd_addr + 8 * (i + rounds) ≤ q)
    → read_le 8 (fill_directory_2m rounds pd_addr i mem) q ≡ read_le 8 mem q
unfolding fill_directory_2m
fill_directory_2m-apart zero i mem q h = refl
fill_directory_2m-apart (suc rounds) i mem q h =
    fill_directory_2m-apart rounds (i + 1) _ q (omega arith)
    ∙ read_le-write_le_apart 8 8 mem (pd_addr + 8 * i) q _ (omega arith)

pub fill_directory_2m-entry :
    (rounds i : ℕ) (mem : Memory) (j : ℕ)
    → i ≤ j
    → j < i + rounds
    → j < 2 ^ 32
    → read_le 8 (fill_directory_2m rounds pd_addr i mem) (pd_addr + 8 * j) ≡ j * 2097152 + 135
unfolding fill_directory_2m
fill_directory_2m-entry zero i mem j lo hi small = absurd (omega arith)
fill_directory_2m-entry (suc rounds) i mem j lo hi small = elim (dec_lt i j) [
  | yes later ↦ fill_directory_2m-entry rounds (i + 1) _ j (omega arith) (omega arith) small
  | no first ↦
      let e : i ≡ j = omega arith in
      fill_directory_2m-apart rounds (i + 1) _ (pd_addr + 8 * j) (omega arith)
      ∙ rw (e, large_lem j)
          (read_le-write_le 8 mem (pd_addr + 8 * j) (j * 2097152 + 135) (omega arith))
]
