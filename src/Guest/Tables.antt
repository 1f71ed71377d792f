-- ===== src/Guest/Tables.antt =====
-- guest/inc/descriptors.h with `set_idt_gate` and `init_idt` of guest/src/interrupts.c and the first part
-- of `_start` in guest/src/main.c: the descriptor tables in guest memory. The structs are packed, so
-- their fields follow one another. `lgdt` and `lidt` load the pointers; the addresses of the tables
-- and of the handler are the compiler's.
use kvm_hypervisor.Base.{ℕ, ◌+◌, ◌-◌, ◌*◌}
use kvm_hypervisor.Base.Memory.{Memory, write_le}
use kvm_hypervisor.Guest.Interrupts.{IdtEntry, idt_gate}
use kvm_hypervisor.Guest.Start.{GdtEntry, null_entry, code_entry, data_entry}

pub record DtPtr : Type 0 where
  pub limit : ℕ
  pub base : ℕ

abbrev pub idt_entries : ℕ
idt_entries = 64

-- `sizeof(struct idt_entry)` and `sizeof(struct gdt_entry)`.
abbrev pub idt_entry_size : ℕ
idt_entry_size = 16

abbrev pub gdt_entry_size : ℕ
gdt_entry_size = 8

unfoldable pub store_idt_entry : IdtEntry → ℕ → Memory → Memory
store_idt_entry e at mem =
    let m1 = write_le 2 mem at e.offset_low in
    let m2 = write_le 2 m1 (at + 2) e.selector in
    let m3 = write_le 1 m2 (at + 4) e.ist in
    let m4 = write_le 1 m3 (at + 5) e.type_attr in
    let m5 = write_le 2 m4 (at + 6) e.offset_mid in
    let m6 = write_le 4 m5 (at + 8) e.offset_high in write_le 4 m6 (at + 12) e.reserved

unfoldable pub store_gdt_entry : GdtEntry → ℕ → Memory → Memory
store_gdt_entry e at mem =
    let m1 = write_le 2 mem at e.limit_low in
    let m2 = write_le 2 m1 (at + 2) e.base_low in
    let m3 = write_le 1 m2 (at + 4) e.base_mid in
    let m4 = write_le 1 m3 (at + 5) e.access in
    let m5 = write_le 1 m4 (at + 6) e.flags_limit in write_le 1 m5 (at + 7) e.base_high

-- The assignments to `gdt`, and the pointer that `lgdt` loads.
unfoldable pub init_gdt : ℕ → Memory → Memory × DtPtr
init_gdt gdt_at mem = (
  store_gdt_entry data_entry (gdt_at + 2 * gdt_entry_size) (
      store_gdt_entry code_entry (gdt_at + gdt_entry_size) (store_gdt_entry null_entry gdt_at mem)),
  record { limit = 3 * gdt_entry_size - 1; base = gdt_at },
)

unfoldable pub set_idt_gate : ℕ → ℕ → ℕ → Memory → Memory
set_idt_gate n handler idt_at mem =
    store_idt_entry (idt_gate handler) (idt_at + idt_entry_size * n) mem

unfoldable pub init_idt : ℕ → ℕ → Memory → Memory × DtPtr
unfolding set_idt_gate
init_idt handler idt_at mem = (
  set_idt_gate 32 handler idt_at mem,
  record { limit = idt_entries * idt_entry_size - 1; base = idt_at },
)
