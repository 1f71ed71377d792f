-- ===== src/FileIo/Flags.antt =====
-- host/src/file_io.cpp: the flags of an open request, as the bit pattern of an `int`.
use Prim.Native.Nat.{bit_and, bit_or}
use kvm_hypervisor.Base.{
  ℕ, zero, suc, ◌+◌, ◌-◌, ◌*◌, ◌/◌, ◌^◌, ◌≤◌, ◌<◌, ◌≡◌, ◌↔◌, ◌⊎◌, ap, Bool, true, false, not, ◌||◌,
  arith, ◌==◌, if◌then◌else◌,
}
use kvm_hypervisor.Base.Bits.{bit_and-low_digit, bit_and-seven, bit_and-zero}
use kvm_hypervisor.Base.Int.{Int32}
use kvm_hypervisor.Protocol.{
  file_open_read, file_open_write, file_open_read_write, file_open_create,
}
use kvm_hypervisor.FileIo.Host.{HostFlags, rdonly, wronly, rdwr}

abbrev pub access_mask : Int32
access_mask = bit_or (bit_or file_open_read file_open_write) file_open_read_write

abbrev pub allowed_mask : Int32
allowed_mask = bit_or access_mask file_open_create

unfoldable pub has_read_access : Int32 → Bool
has_read_access flags =
    let access_mode = bit_and flags access_mask in
    access_mode == file_open_read || access_mode == file_open_read_write

unfoldable pub has_write_access : Int32 → Bool
has_write_access flags =
    let access_mode = bit_and flags access_mask in
    access_mode == file_open_write || access_mode == file_open_read_write

unfoldable pub are_valid_open_flags : Int32 → Bool
are_valid_open_flags flags =
    let access_mode = bit_and flags access_mask in
    if not (bit_and flags (2 ^ 32 - 1 - allowed_mask) == 0)
    then false
    else access_mode == file_open_read
      || access_mode == file_open_write
      || access_mode == file_open_read_write

pub to_host_open_flags : Int32 → HostFlags
to_host_open_flags flags =
    let access_mode = bit_and flags access_mask in
    record {
      access =
          if access_mode == file_open_read
          then rdonly
          else if access_mode == file_open_write
          then wronly
          else rdwr;
      creat = not (bit_and flags file_open_create == 0);
    }

-- `k` ones.
abbrev ones : ℕ → ℕ
ones zero = 0
ones (suc k) = 2 * ones k + 1

half_ones : (k : ℕ) → (2 * ones k + 1) / 2 ≡ ones k
half_ones k = omega arith

bit_and-ones : (k a : ℕ) → a ≤ ones k → bit_and a (ones k) ≡ a
bit_and-ones zero a h = omega (arith, bit_and-zero a)
bit_and-ones (suc k) a h =
    let half = bit_and-ones k (a / 2) (omega arith) in
    omega (arith, bit_and-low_digit a (ones (suc k)), ap (bit_and (a / 2)) (half_ones k), half)

-- The digits above the lowest four.
bit_and-above_four : (a : ℕ) → a < 2 ^ 32 → bit_and a (2 ^ 32 - 16) ≡ a / 16 * 16
bit_and-above_four a h = omega (
  arith,
  bit_and-low_digit a (2 ^ 32 - 16),
  bit_and-low_digit (a / 2) (2 ^ 31 - 8),
  bit_and-low_digit (a / 2 / 2) (2 ^ 30 - 4),
  bit_and-low_digit (a / 2 / 2 / 2) (2 ^ 29 - 2),
  bit_and-ones 28 (a / 2 / 2 / 2 / 2) (omega arith),
)

-- The flags that name one access mode, alone or with the one to create.
abbrev pub IsOneMode : Int32 → Type 0
IsOneMode flags =
    ((flags ≡ 1) ⊎ ((flags ≡ 2) ⊎ (flags ≡ 4))) ⊎ ((flags ≡ 9) ⊎ ((flags ≡ 10) ⊎ (flags ≡ 12)))

-- An open request's flags are valid exactly when they are one of the access modes read, write and
-- read-write, alone or together with the flag to create.
pub are_valid_open_flags_iff :
    (flags : Int32) → flags < 2 ^ 32 → (are_valid_open_flags flags ≡ true) ↔ IsOneMode flags
unfolding are_valid_open_flags
are_valid_open_flags_iff flags h = ground (arith, bit_and-above_four flags h, bit_and-seven flags)
