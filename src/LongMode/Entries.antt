-- ===== src/LongMode/Entries.antt =====
-- host/src/vm.c: what the flag bits add to an entry whose address leaves them clear.
use Prim.Native.Nat.{bit_or}
use kvm_hypervisor.Base.{ℕ, ◌+◌, ◌*◌, ◌/◌, ◌%◌, ◌≡◌, arith}
use kvm_hypervisor.Base.Bits.{bit_or-low_digit, bit_or-one, bit_or-two, bit_or-four}
use kvm_hypervisor.LongMode.{mapped}

pub mapped_lem : (frame : ℕ) → mapped (frame * 4096) ≡ frame * 4096 + 7
unfolding mapped
mapped_lem frame = omega (
  arith,
  bit_or-one (frame * 4096),
  bit_or-two (bit_or (frame * 4096) 1),
  bit_or-four (bit_or (bit_or (frame * 4096) 1) 2),
)

bit_or-eight : (a : ℕ) → a / 8 % 2 ≡ 0 → bit_or a 8 ≡ a + 8
bit_or-eight a h = omega (arith, bit_or-low_digit a 8, bit_or-four (a / 2))

bit_or-16 : (a : ℕ) → a / 16 % 2 ≡ 0 → bit_or a 16 ≡ a + 16
bit_or-16 a h = omega (arith, bit_or-low_digit a 16, bit_or-eight (a / 2))

bit_or-32 : (a : ℕ) → a / 32 % 2 ≡ 0 → bit_or a 32 ≡ a + 32
bit_or-32 a h = omega (arith, bit_or-low_digit a 32, bit_or-16 (a / 2))

bit_or-64 : (a : ℕ) → a / 64 % 2 ≡ 0 → bit_or a 64 ≡ a + 64
bit_or-64 a h = omega (arith, bit_or-low_digit a 64, bit_or-32 (a / 2))

bit_or-128 : (a : ℕ) → a / 128 % 2 ≡ 0 → bit_or a 128 ≡ a + 128
bit_or-128 a h = omega (arith, bit_or-low_digit a 128, bit_or-64 (a / 2))

pub large_lem : (i : ℕ) → bit_or (mapped (i * (2 * 1024 * 1024))) 0x80 ≡ i * 2097152 + 135
large_lem i =
    let e : i * 2097152 ≡ i * 512 * 4096 = omega arith in
    rw (e, mapped_lem (i * 512)) (omega (arith, bit_or-128 (i * 512 * 4096 + 7)))
