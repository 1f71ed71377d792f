-- ===== src/Base/Bag.antt =====
-- Bags of numbers: lists up to the order of their elements.
use Prim.Native.Nat.{ℕ, ◌+◌, ◌-◌}
use mathlib.Core.Path.{◌≡◌, refl}
use mathlib.Core.Quot
use mathlib.Core.Quot.{Quot, Quot-set}
use mathlib.Core.List.{List, [], ◌∷◌}
use native.Mathlib.Nat.{ℕ_set}
use native.Mathlib.Omega.{arith}
use kvm_hypervisor.Base.Tests.{◌==◌, if◌then◌else◌}
use kvm_hypervisor.Base.Family.{bit}

-- The list without the first element of that value.
abbrev pub remove : ℕ → List ℕ → List ℕ
remove v [] = []
remove v (n ∷ ns) = let rest = remove v ns in if n == v then ns else n ∷ rest

abbrev pub count : ℕ → List ℕ → ℕ
count v [] = 0
count v (n ∷ ns) = bit (n == v) + count v ns

pub count-remove : (v k : ℕ) (ns : List ℕ) → count k (remove v ns) ≡ count k ns - bit (v == k)
count-remove v k [] = ground arith
count-remove v k (n ∷ ns) = ground (arith, count-remove v k ns)

-- As much of every number in one list as in the other.
pub record IsRearranged (ms ns : List ℕ) : Type 0 where
  pub same : (v : ℕ) → count v ms ≡ count v ns

IsRearranged-cons : (v : ℕ) (ms ns : List ℕ) → IsRearranged ms ns → IsRearranged (v ∷ ms) (v ∷ ns)
IsRearranged-cons v ms ns r = record { same = λ k. omega (arith, r.same k) }

IsRearranged-remove :
    (v : ℕ) (ms ns : List ℕ) → IsRearranged ms ns → IsRearranged (remove v ms) (remove v ns)
IsRearranged-remove v ms ns r = record {
  same = λ k. omega (arith, r.same k, count-remove v k ms, count-remove v k ns);
}

abbrev pub Bag : Type 0
Bag = Quot IsRearranged

abbrev pub bag : List ℕ → Bag
bag ns = Quot.mk ns

pub put : ℕ → Bag → Bag
put v =
    Quot.lift Quot-set (λ ns. bag (v ∷ ns)) (λ ms ns r. Quot.sound (IsRearranged-cons v ms ns r))

pub take_out : ℕ → Bag → Bag
take_out v =
    Quot.lift Quot-set (λ ns. bag (remove v ns))
      (λ ms ns r. Quot.sound (IsRearranged-remove v ms ns r))

-- How much of a number the bag holds.
pub units : ℕ → Bag → ℕ
units v b = Quot.lift ℕ_set (count v) (λ ms ns r. r.same v) b

pub units-put : (v k : ℕ) (b : Bag) → units k (put v b) ≡ bit (v == k) + units k b
unfolding put units
units-put v k = Quot.ind (λ b. ℕ_set _ _) (λ ns. refl)

pub units-take_out : (v k : ℕ) (b : Bag) → units k (take_out v b) ≡ units k b - bit (v == k)
unfolding take_out units
units-take_out v k = Quot.ind (λ b. ℕ_set _ _) (λ ns. count-remove v k ns)

-- The order of putting in is forgotten: bags that hold as much of everything are equal.
pub ext : (b c : Bag) → ((v : ℕ) → units v b ≡ units v c) → b ≡ c
unfolding units
ext =
    Quot.ind (λ b. hlevel Quot-set)
      (λ ms. Quot.ind (λ c. hlevel Quot-set) (λ ns same. Quot.sound (record { same = same })))
