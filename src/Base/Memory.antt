-- ===== src/Base/Memory.antt =====
-- Byte memories (`char *` and `uint8_t *` mappings) and little-endian words in them (`memcpy` of a
-- `uint32_t` or a store through a `uint64_t *`, as the x86-64 host does them).
use Prim.Native.Nat.{ℕ, zero, suc, ◌+◌, ◌*◌, ◌/◌, ◌%◌, ◌≤◌, ◌<◌}
use mathlib.Core.Path.{◌≡◌, refl, ◌∙◌}
use mathlib.Core.Logic.{◌⊎◌, inl}
use native.Mathlib.Omega.{arith}
use mathlib.Core.List.{List, [], ◌∷◌}
use kvm_hypervisor.Base.Lists.{length}
use kvm_hypervisor.Base.Tests.{◌==◌, if◌then◌else◌}

abbrev pub Memory : Type 0
Memory = ℕ → ℕ

abbrev pub store : Memory → ℕ → ℕ → Memory
store m p v a = if p == a then v else m a

-- The number of values of an n-byte word.
abbrev pub radix : ℕ → ℕ
radix zero = 1
radix (suc n) = 256 * radix n

unfoldable pub write_le : ℕ → Memory → ℕ → ℕ → Memory
write_le zero m p v = m
write_le (suc n) m p v = write_le n (store m p (v % 256)) (p + 1) (v / 256)

unfoldable pub read_le : ℕ → Memory → ℕ → ℕ
read_le zero m p = 0
read_le (suc n) m p = m p + 256 * read_le n m (p + 1)

-- A write leaves the bytes outside its range alone.
pub write_le-out_of_range :
    (n : ℕ) (m : Memory) (p v a : ℕ) → (a < p) ⊎ (p + n ≤ a) → write_le n m p v a ≡ m a
unfolding write_le
write_le-out_of_range zero m p v a h = refl
write_le-out_of_range (suc n) m p v a h =
    write_le-out_of_range n (store m p (v % 256)) (p + 1) (v / 256) a (omega arith) ∙ ground arith

-- What was written is read back.
pub read_le-write_le :
    (n : ℕ) (m : Memory) (p v : ℕ) → v < radix n → read_le n (write_le n m p v) p ≡ v
unfolding read_le write_le
read_le-write_le zero m p v h = omega arith
read_le-write_le (suc n) m p v h = ground (
  arith,
  write_le-out_of_range n (store m p (v % 256)) (p + 1) (v / 256) p (inl (omega arith)),
  read_le-write_le n (store m p (v % 256)) (p + 1) (v / 256) (omega arith),
)

-- Memories that agree on a word's bytes give the same word.
pub read_le-congr :
    (n : ℕ) (m m' : Memory) (q : ℕ)
    → ((a : ℕ) → q ≤ a → a < q + n → m a ≡ m' a)
    → read_le n m q ≡ read_le n m' q
unfolding read_le
read_le-congr zero m m' q h = refl
read_le-congr (suc n) m m' q h = omega (
  arith,
  h q (omega arith) (omega arith),
  read_le-congr n m m' (q + 1) (λ a lo hi. h a (omega arith) (omega arith)),
)

-- A word apart from the one written is unchanged.
pub read_le-write_le_apart :
    (n k : ℕ) (m : Memory) (p q v : ℕ)
    → (q + n ≤ p) ⊎ (p + k ≤ q)
    → read_le n (write_le k m p v) q ≡ read_le n m q
read_le-write_le_apart n k m p q v h =
    read_le-congr n _ m q λ a lo hi. write_le-out_of_range k m p v a (omega arith)

-- The cells of a memory are bytes.
abbrev pub IsBytes : Memory → Type 0
IsBytes m = (a : ℕ) → m a < 256

pub read_le-lt-radix : (n : ℕ) (m : Memory) (p : ℕ) → IsBytes m → read_le n m p < radix n
unfolding read_le
read_le-lt-radix zero m p h = omega arith
read_le-lt-radix (suc n) m p h = omega (arith, h p, read_le-lt-radix n m (p + 1) h)

-- A fresh anonymous mapping reads as zero.
pub read_le-zero : (n : ℕ) (m : Memory) (p : ℕ) → ((a : ℕ) → m a ≡ 0) → read_le n m p ≡ 0
unfolding read_le
read_le-zero zero m p h = refl
read_le-zero (suc n) m p h = omega (arith, h p, read_le-zero n m (p + 1) h)

-- A list of bytes at an address.
unfoldable pub store_bytes : Memory → ℕ → List ℕ → Memory
store_bytes mem p [] = mem
store_bytes mem p (b ∷ bs) = store_bytes (store mem p b) (p + 1) bs

pub store_bytes-elsewhere :
    (mem : Memory) (p : ℕ) (bytes : List ℕ) (a : ℕ)
    → (a < p) ⊎ (p + length bytes ≤ a)
    → store_bytes mem p bytes a ≡ mem a
unfolding store_bytes
store_bytes-elsewhere mem p [] a h = refl
store_bytes-elsewhere mem p (b ∷ bytes) a h =
    store_bytes-elsewhere (store mem p b) (p + 1) bytes a (omega arith) ∙ ground arith
