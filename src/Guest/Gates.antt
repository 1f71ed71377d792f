-- ===== src/Guest/Gates.antt =====
-- guest/src/interrupts.c and guest/src/main.c: where the guest's descriptor tables lead the processor.
use Prim.Native.Nat.{◌^◌}
use kvm_hypervisor.Base.{
  ℕ, ◌+◌, ◌*◌, ◌/◌, ◌%◌, ◌≤◌, ◌<◌, ◌≡◌, ◌≢◌, ◌⊎◌, refl, dec_lt, ◌∙◌, arith, true, Option, none,
  some,
}
use kvm_hypervisor.Base.Memory.{
  Memory, read_le, read_le-write_le, read_le-write_le_apart, read_le-congr, read_le-zero,
}
use kvm_hypervisor.Guest.Interrupts.{IdtEntry, idt_gate}
use kvm_hypervisor.Guest.Start.{GdtEntry, code_entry, data_entry, null_entry}
use kvm_hypervisor.Guest.Tables.{store_idt_entry, store_gdt_entry, init_gdt, init_idt}
use kvm_hypervisor.Runner.{irq_num}
use kvm_hypervisor.Guest.Dispatch.{is_code_selector, dispatch}

store_idt_entry-apart :
    (e : IdtEntry) (at : ℕ) (mem : Memory) (n q : ℕ)
    → (q + n ≤ at) ⊎ (at + 16 ≤ q)
    → read_le n (store_idt_entry e at mem) q ≡ read_le n mem q
unfolding store_idt_entry
store_idt_entry-apart e at mem n q h =
    read_le-write_le_apart n 4 _ (at + 12) q _ (omega arith)
    ∙ read_le-write_le_apart n 4 _ (at + 8) q _ (omega arith)
    ∙ read_le-write_le_apart n 2 _ (at + 6) q _ (omega arith)
    ∙ read_le-write_le_apart n 1 _ (at + 5) q _ (omega arith)
    ∙ read_le-write_le_apart n 1 _ (at + 4) q _ (omega arith)
    ∙ read_le-write_le_apart n 2 _ (at + 2) q _ (omega arith)
    ∙ read_le-write_le_apart n 2 mem at q _ (omega arith)

store_gdt_entry-apart :
    (e : GdtEntry) (at : ℕ) (mem : Memory) (n q : ℕ)
    → (q + n ≤ at) ⊎ (at + 8 ≤ q)
    → read_le n (store_gdt_entry e at mem) q ≡ read_le n mem q
unfolding store_gdt_entry
store_gdt_entry-apart e at mem n q h =
    read_le-write_le_apart n 1 _ (at + 7) q _ (omega arith)
    ∙ read_le-write_le_apart n 1 _ (at + 6) q _ (omega arith)
    ∙ read_le-write_le_apart n 1 _ (at + 5) q _ (omega arith)
    ∙ read_le-write_le_apart n 1 _ (at + 4) q _ (omega arith)
    ∙ read_le-write_le_apart n 2 _ (at + 2) q _ (omega arith)
    ∙ read_le-write_le_apart n 2 mem at q _ (omega arith)

-- What is read where an entry of the interrupt table was stored.
record IsGate (e : IdtEntry) (at : ℕ) (mem : Memory) : Type 0 where
  low : read_le 2 mem at ≡ e.offset_low
  code : read_le 2 mem (at + 2) ≡ e.selector
  kind : read_le 1 mem (at + 5) ≡ e.type_attr
  mid : read_le 2 mem (at + 6) ≡ e.offset_mid
  high : read_le 4 mem (at + 8) ≡ e.offset_high

store_idt_entry-IsGate :
    (e : IdtEntry) (at : ℕ) (mem : Memory)
    → e.offset_low < 2 ^ 16
    → e.selector < 2 ^ 16
    → e.type_attr < 2 ^ 8
    → e.offset_mid < 2 ^ 16
    → e.offset_high < 2 ^ 32
    → IsGate e at (store_idt_entry e at mem)
unfolding store_idt_entry
store_idt_entry-IsGate e at mem l s t m h = record {
  low =
      read_le-write_le_apart 2 4 _ (at + 12) at _ (omega arith)
      ∙ read_le-write_le_apart 2 4 _ (at + 8) at _ (omega arith)
      ∙ read_le-write_le_apart 2 2 _ (at + 6) at _ (omega arith)
      ∙ read_le-write_le_apart 2 1 _ (at + 5) at _ (omega arith)
      ∙ read_le-write_le_apart 2 1 _ (at + 4) at _ (omega arith)
      ∙ read_le-write_le_apart 2 2 _ (at + 2) at _ (omega arith)
      ∙ read_le-write_le 2 mem at e.offset_low (omega arith);
  code =
      read_le-write_le_apart 2 4 _ (at + 12) (at + 2) _ (omega arith)
      ∙ read_le-write_le_apart 2 4 _ (at + 8) (at + 2) _ (omega arith)
      ∙ read_le-write_le_apart 2 2 _ (at + 6) (at + 2) _ (omega arith)
      ∙ read_le-write_le_apart 2 1 _ (at + 5) (at + 2) _ (omega arith)
      ∙ read_le-write_le_apart 2 1 _ (at + 4) (at + 2) _ (omega arith)
      ∙ read_le-write_le 2 _ (at + 2) e.selector (omega arith);
  kind =
      read_le-write_le_apart 1 4 _ (at + 12) (at + 5) _ (omega arith)
      ∙ read_le-write_le_apart 1 4 _ (at + 8) (at + 5) _ (omega arith)
      ∙ read_le-write_le_apart 1 2 _ (at + 6) (at + 5) _ (omega arith)
      ∙ read_le-write_le 1 _ (at + 5) e.type_attr (omega arith);
  mid =
      read_le-write_le_apart 2 4 _ (at + 12) (at + 6) _ (omega arith)
      ∙ read_le-write_le_apart 2 4 _ (at + 8) (at + 6) _ (omega arith)
      ∙ read_le-write_le 2 _ (at + 6) e.offset_mid (omega arith);
  high =
      read_le-write_le_apart 4 4 _ (at + 12) (at + 8) _ (omega arith)
      ∙ read_le-write_le 4 _ (at + 8) e.offset_high (omega arith);
}

module _ (gdt_at idt_at handler : ℕ) (mem : Memory)
    (apart : (gdt_at + 24 ≤ idt_at) ⊎ (idt_at + 1024 ≤ gdt_at)) where
  abbrev with_gdt : Memory
  with_gdt = (init_gdt gdt_at mem).0

  abbrev with_idt : Memory
  with_idt = (init_idt handler idt_at with_gdt).0

  -- The code descriptor's bytes with its rights and flags.
  code_access : read_le 1 with_idt (gdt_at + 8 + 5) ≡ 0x9A
  unfolding init_idt init_gdt store_gdt_entry
  code_access =
      store_idt_entry-apart _ (idt_at + 512) _ 1 (gdt_at + 8 + 5) (omega arith)
      ∙ store_gdt_entry-apart data_entry (gdt_at + 16) _ 1 (gdt_at + 8 + 5) (omega arith)
      ∙ read_le-write_le_apart 1 1 _ (gdt_at + 8 + 7) (gdt_at + 8 + 5) _ (omega arith)
      ∙ read_le-write_le_apart 1 1 _ (gdt_at + 8 + 6) (gdt_at + 8 + 5) _ (omega arith)
      ∙ read_le-write_le 1 _ (gdt_at + 8 + 5) 0x9A (omega arith)

  code_flags : read_le 1 with_idt (gdt_at + 8 + 6) ≡ 0xAF
  unfolding init_idt init_gdt store_gdt_entry
  code_flags =
      store_idt_entry-apart _ (idt_at + 512) _ 1 (gdt_at + 8 + 6) (omega arith)
      ∙ store_gdt_entry-apart data_entry (gdt_at + 16) _ 1 (gdt_at + 8 + 6) (omega arith)
      ∙ read_le-write_le_apart 1 1 _ (gdt_at + 8 + 7) (gdt_at + 8 + 6) _ (omega arith)
      ∙ read_le-write_le 1 _ (gdt_at + 8 + 6) 0xAF (omega arith)

  is_code_selector-code : is_code_selector with_idt (init_gdt gdt_at mem).1 8 ≡ true
  unfolding is_code_selector init_gdt
  is_code_selector-code = rw (code_access, code_flags) refl

  gate : handler < 2 ^ 64 → IsGate (idt_gate handler) (idt_at + 16 * 32) with_idt
  unfolding init_idt idt_gate
  gate small =
      store_idt_entry-IsGate (idt_gate handler) (idt_at + 16 * 32) with_gdt (omega arith)
        (omega arith) (omega arith) (omega arith) (omega arith)

  -- Every other gate of the table is as the zeroed image leaves it.
  no_gate :
      (vector : ℕ)
      → ((a : ℕ) → idt_at ≤ a → a < idt_at + 1024 → mem a ≡ 0)
      → (vector < 32) ⊎ (32 < vector)
      → vector < 64
      → read_le 1 with_idt (idt_at + 16 * vector + 5) ≡ 0
  unfolding init_idt init_gdt
  no_gate vector zeroed other small =
      let q = idt_at + 16 * vector + 5 in
      store_idt_entry-apart _ (idt_at + 512) _ 1 q (omega arith)
      ∙ store_gdt_entry-apart data_entry (gdt_at + 16) _ 1 q (omega arith)
      ∙ store_gdt_entry-apart code_entry (gdt_at + 8) _ 1 q (omega arith)
      ∙ store_gdt_entry-apart null_entry gdt_at mem 1 q (omega arith)
      ∙ read_le-congr 1 mem (λ a. 0) q (λ a lo hi. zeroed a (omega arith) (omega arith))
      ∙ read_le-zero 1 (λ a. 0) q (λ a. refl)

  abbrev reached : ℕ → Option (ℕ × ℕ)
  reached vector =
      dispatch with_idt (init_gdt gdt_at mem).1 (init_idt handler idt_at with_gdt).1 vector

  dispatch-gate : handler < 2 ^ 64 → reached 32 ≡ some (8, handler)
  unfolding dispatch init_idt idt_gate
  dispatch-gate small =
      let g = gate small in
      let whole : handler % 2 ^ 16
            + 2 ^ 16 * (handler / 2 ^ 16 % 2 ^ 16)
            + 2 ^ 32 * (handler / 2 ^ 32 % 2 ^ 32)
          ≡ handler =
        omega arith in
      rw (g.kind, g.code, is_code_selector-code, g.low, g.mid, g.high, whole) refl

  dispatch-no_gate :
      (vector : ℕ)
      → ((a : ℕ) → idt_at ≤ a → a < idt_at + 1024 → mem a ≡ 0)
      → vector ≢ 32
      → reached vector ≡ none
  unfolding dispatch init_idt
  dispatch-no_gate vector zeroed other = elim (dec_lt vector 64) [
    | yes inside ↦
        let absent = no_gate vector zeroed (omega (arith, other)) inside in ground (arith, absent)
    | no outside ↦ ground arith
  ]

  -- With the tables that the guest sets up, in a zeroed `idt` that does not overlap `gdt`, the processor
  -- delivers the interrupt that the host injects at the handler, in the code segment 0x08, for any
  -- 64-bit address of the handler; and every other vector is a fault.
  pub dispatch-init_idt :
      handler < 2 ^ 64
      → ((a : ℕ) → idt_at ≤ a → a < idt_at + 1024 → mem a ≡ 0)
      → let (m1, gdtr) = init_gdt gdt_at mem in
        let (m2, idtr) = init_idt handler idt_at m1 in
        (dispatch m2 gdtr idtr irq_num ≡ some (8, handler))
        × ((vector : ℕ) → vector ≢ irq_num → dispatch m2 gdtr idtr vector ≡ none)
  dispatch-init_idt small zeroed =
      (dispatch-gate small, λ vector other. dispatch-no_gate vector zeroed other)
