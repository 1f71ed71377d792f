-- ===== src/Base/Family.antt =====
-- Families `ℕ → A`, one member for each VM: update of one member, and the number of members below a
-- bound that pass a test.
use Prim.Native.Nat.{ℕ, zero, suc, ◌+◌, ◌≤◌, ◌<◌}
use mathlib.Core.Path.{◌≡◌, refl}
use mathlib.Core.Logic.{inl, inr}
use mathlib.Core.Bool.{Bool, true, false}
use native.Mathlib.Omega.{arith}
use kvm_hypervisor.Base.Tests.{◌==◌, if◌then◌else◌, Bool-cases, ==_iff}

module _ {ℓ} {A : Type ℓ} where
  abbrev pub update : (ℕ → A) → ℕ → A → ℕ → A
  update f i a j = if i == j then a else f j

abbrev pub bit : Bool → ℕ
bit b = if b then 1 else 0

module _ {ℓ} {A : Type ℓ} (test : A → Bool) where
  -- How many of the members 1 ≤ i ≤ n pass.
  pub tally : ℕ → (ℕ → A) → ℕ
  tally zero f = 0
  tally (suc n) f = tally n f + bit (test (f (suc n)))

  pub tally-update_above :
      (n : ℕ) (f : ℕ → A) (i : ℕ) (a : A) → n < i → tally n (update f i a) ≡ tally n f
  unfolding tally
  tally-update_above zero f i a h = refl
  tally-update_above (suc n) f i a h = ground (arith, tally-update_above n f i a)

  -- The writer, member 0, is not counted.
  pub tally-update_zero : (n : ℕ) (f : ℕ → A) (a : A) → tally n (update f 0 a) ≡ tally n f
  unfolding tally
  tally-update_zero zero f a = refl
  tally-update_zero (suc n) f a = ground (arith, tally-update_zero n f a)

  pub tally-update :
      (n : ℕ) (f : ℕ → A) (i : ℕ) (a : A)
      → 0 < i
      → i ≤ n
      → tally n (update f i a) + bit (test (f i)) ≡ tally n f + bit (test a)
  unfolding tally
  tally-update zero f i a pos h = absurd (omega arith)
  tally-update (suc n) f i a pos h =
      ground (arith, tally-update n f i a, tally-update_above n f i a)

  pub tally-le : (n : ℕ) (f : ℕ → A) → tally n f ≤ n
  unfolding tally
  tally-le zero f = omega arith
  tally-le (suc n) f = ground (arith, tally-le n f)

  -- A tally of zero, from no member passing.
  pub tally-eq-zero :
      (n : ℕ) (f : ℕ → A) → ((i : ℕ) → 0 < i → i ≤ n → test (f i) ≡ false) → tally n f ≡ 0
  unfolding tally
  tally-eq-zero zero f h = refl
  tally-eq-zero (suc n) f h =
      ground (arith, h (suc n), tally-eq-zero n f (λ i lo hi. h i lo (omega arith)))

  -- A full tally means that every member passes.
  pub tally_full : (n : ℕ) (f : ℕ → A) → tally n f ≡ n → (i : ℕ) → 0 < i → i ≤ n → test (f i) ≡ true
  unfolding tally
  tally_full zero f e i lo hi = absurd (omega arith)
  tally_full (suc n) f e i lo hi = elim (Bool-cases (i == suc n)) [
    | inl last ↦ ground (arith, tally-le n f)
    | inr below ↦ tally_full n f (ground (arith, tally-le n f)) i lo (ground arith)
  ]

  -- Otherwise some member does not pass.
  pub tally_missing :
      (n : ℕ) (f : ℕ → A) → tally n f < n → (i : ℕ) × (0 < i) × (i ≤ n) × (test (f i) ≡ false)
  unfolding tally
  tally_missing zero f h = absurd (omega arith)
  tally_missing (suc n) f h = elim (Bool-cases (test (f (suc n)))) [
    | inl here ↦
        let (i, lo, hi, out) = tally_missing n f (ground arith) in (i, lo, omega arith, out)
    | inr out ↦ (suc n, omega arith, omega arith, out)
  ]

  -- A member that does not pass keeps the tally below its bound.
  pub tally-lt : (n : ℕ) (f : ℕ → A) (i : ℕ) → 0 < i → i ≤ n → test (f i) ≡ false → tally n f < n
  tally-lt n f i lo hi out = elim (Bool-cases (tally n f == n)) [
    | inl full ↦ cc (tally_full n f ((==_iff _ n).0 full) i lo hi)
    | inr short ↦ ground (arith, tally-le n f)
  ]
