-- ===== src/LongMode/Walk.antt =====
-- How an x86-64 processor with four-level paging translates a linear address (Intel SDM volume 3A,
-- section 4.5): the specification against which the tables of host/src/vm.c are judged. Access
-- rights and the accessed and dirty bits play no part.
use kvm_hypervisor.Base.{ℕ, ◌+◌, ◌*◌, ◌/◌, ◌%◌, ◌^◌, Option, none, some, if◌then◌else◌, ◌==◌}
use kvm_hypervisor.Base.Memory.{Memory, read_le}

abbrev pub is_present : ℕ → ℕ
is_present e = e % 2

abbrev pub is_large : ℕ → ℕ
is_large e = e / 2 ^ 7 % 2

-- Bits 12 to 51 of an entry, as an address.
abbrev pub frame : ℕ → ℕ
frame e = e / 2 ^ 12 % 2 ^ 40 * 2 ^ 12

-- Entry number `va / 2^shift` of the table at `table`.
abbrev pub entry_of : Memory → ℕ → ℕ → ℕ → ℕ
entry_of mem table shift va = read_le 8 mem (table + 8 * (va / 2 ^ shift % 2 ^ 9))

unfoldable pub walk_table : Memory → ℕ → ℕ → Option ℕ
walk_table mem table va =
    let e = entry_of mem table 12 va in
    if is_present e == 0 then none else some (frame e + va % 2 ^ 12)

unfoldable pub walk_directory : Memory → ℕ → ℕ → Option ℕ
walk_directory mem table va =
    let e = entry_of mem table 21 va in
    if is_present e == 0
    then none
    else if is_large e == 1
    then some (e / 2 ^ 21 % 2 ^ 31 * 2 ^ 21 + va % 2 ^ 21)
    else walk_table mem (frame e) va

unfoldable pub walk_pointers : Memory → ℕ → ℕ → Option ℕ
walk_pointers mem table va =
    let e = entry_of mem table 30 va in
    if is_present e == 0
    then none
    else if is_large e == 1
    then some (e / 2 ^ 30 % 2 ^ 22 * 2 ^ 30 + va % 2 ^ 30)
    else walk_directory mem (frame e) va

-- The physical address, or a page fault.
unfoldable pub translate : Memory → ℕ → ℕ → Option ℕ
translate mem cr3 va =
    let e = entry_of mem (frame cr3) 39 va in
    if is_present e == 0 then none else walk_pointers mem (frame e) va
