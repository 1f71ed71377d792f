-- ===== src/Guest/Dispatch.antt =====
-- How an x86-64 processor delivers an interrupt in 64-bit mode (Intel SDM volume 3A, section 7.14): the
-- specification against which the descriptor tables of guest/src/main.c and guest/src/interrupts.c
-- are judged. Privilege levels play no part, since the guest stays in ring 0.
use Prim.Native.Nat.{◌^◌}
use kvm_hypervisor.Base.{
  ℕ, ◌+◌, ◌*◌, ◌/◌, ◌%◌, Bool, ◌&&◌, not, ◌||◌, Option, none, some, if◌then◌else◌, ltb, ◌==◌,
}
use kvm_hypervisor.Base.Memory.{Memory, read_le}
use kvm_hypervisor.Guest.Tables.{DtPtr}

-- Bit `n` of a byte.
abbrev pub bit_of : ℕ → ℕ → Bool
bit_of n b = b / 2 ^ n % 2 == 1

-- The selector names a present 64-bit code segment inside the table: a code or data segment (bit 4)
-- that is executable (bit 3), with the L bit and without the D bit.
unfoldable pub is_code_selector : Memory → DtPtr → ℕ → Bool
is_code_selector mem gdtr selector =
    let at = gdtr.base + selector / 8 * 8 in
    let access = read_le 1 mem (at + 5) in
    let flags = read_le 1 mem (at + 6) in
    not (selector / 8 == 0)
    && not (ltb gdtr.limit (selector / 8 * 8 + 7))
    && bit_of 7 access
    && bit_of 4 access
    && bit_of 3 access
    && bit_of 5 flags
    && not (bit_of 6 flags)

-- The selector and the address at which the processor goes on, or a fault: the gate lies outside the
-- table, is not a present 64-bit interrupt gate, or leads to no code segment.
unfoldable pub dispatch : Memory → DtPtr → DtPtr → ℕ → Option (ℕ × ℕ)
unfolding is_code_selector
dispatch mem gdtr idtr vector =
    let at = idtr.base + 16 * vector in
    let kind = read_le 1 mem (at + 5) in
    let selector = read_le 2 mem (at + 2) in
    if ltb idtr.limit (16 * vector + 15)
      || not (bit_of 7 kind)
      || not (kind % 32 == 14)
      || not (is_code_selector mem gdtr selector)
    then none
    else some (
      selector,
      read_le 2 mem at + 2 ^ 16 * read_le 2 mem (at + 6) + 2 ^ 32 * read_le 4 mem (at + 8),
    )
