-- ===== src/FileIo/Table.antt =====
-- host/src/file_io.cpp: the map of open files under the operations on it.
use kvm_hypervisor.Base.{
  ◌≡◌, ◌≢◌, ◌<◌, ◌⊎◌, inl, inr, sym, subst, refl, arith, some, Option-cases, true, [], ◌∷◌,
}
use kvm_hypervisor.Base.Int.{Int32}
use kvm_hypervisor.FileIo.Host.{Name}
use kvm_hypervisor.FileIo.State.{OpenFile, OpenFiles, find, emplace, erase, update, same_name}

-- A predicate of every entry.
abbrev pub AllFiles : (Int32 → OpenFile → Type 0) → OpenFiles → Type 0
AllFiles P [] = Unit
AllFiles P ((d, file) ∷ files) = P d file × AllFiles P files

-- No two entries have the same descriptor.
abbrev pub IsDistinct : OpenFiles → Type 0
IsDistinct [] = Unit
IsDistinct ((d, file) ∷ files) = AllFiles (λ e f. e ≢ d) files × IsDistinct files

pub same_name→eq : (m n : Name) → same_name m n ≡ true → m ≡ n
same_name→eq [] [] h = refl
same_name→eq [] (d ∷ ds) h = cc
same_name→eq (c ∷ cs) [] h = cc
same_name→eq (c ∷ cs) (d ∷ ds) h = ground (arith, same_name→eq cs ds)

pub same_name_refl : (n : Name) → same_name n n ≡ true
same_name_refl [] = refl
same_name_refl (c ∷ cs) = ground (arith, same_name_refl cs)

pub find-cons :
    (d e : Int32) (f g : OpenFile) (files : OpenFiles)
    → find d ((e, g) ∷ files) ≡ some f
    → ((e ≡ d) × (g ≡ f)) ⊎ (find d files ≡ some f)
unfolding find
find-cons d e f g files h = ground arith

pub update-cons :
    (d e : Int32) (f : OpenFile) (g : OpenFile → OpenFile) (files : OpenFiles)
    → ((e ≡ d) × (update d g ((e, f) ∷ files) ≡ (e, g f) ∷ files))
      ⊎ ((e ≢ d) × (update d g ((e, f) ∷ files) ≡ (e, f) ∷ update d g files))
unfolding update
update-cons d e f g files = ground arith

-- An entry after an update of one that may be the same.
pub find-update :
    (c d : Int32) (f : OpenFile) (g : OpenFile → OpenFile) (files : OpenFiles)
    → find c files ≡ some f
    → ((c ≡ d) × (find c (update d g files) ≡ some (g f)))
      ⊎ ((c ≢ d) × (find c (update d g files) ≡ some f))
unfolding find update
find-update c d f g [] h = cc
find-update c d f g ((e, f1) ∷ files) h = ground (arith, find-update c d f g files)

module _ (P Q : Int32 → OpenFile → Type 0) where
  pub AllFiles-map :
      ((d : Int32) (f : OpenFile) → P d f → Q d f)
      → (files : OpenFiles) → AllFiles P files
      → AllFiles Q files
  AllFiles-map g [] u = tt
  AllFiles-map g ((d, f) ∷ files) (p, ps) = (g d f p, AllFiles-map g files ps)

  pub AllFiles-both :
      (files : OpenFiles)
      → AllFiles P files
      → AllFiles Q files
      → AllFiles (λ d f. P d f × Q d f) files
  AllFiles-both [] u v = tt
  AllFiles-both ((d, f) ∷ files) (p, ps) (q, qs) = ((p, q), AllFiles-both files ps qs)

  pub AllFiles-first :
      (files : OpenFiles) → AllFiles (λ d f. P d f × Q d f) files → AllFiles P files
  AllFiles-first [] u = tt
  AllFiles-first ((d, f) ∷ files) ((p, q), ps) = (p, AllFiles-first files ps)

module _ (P : Int32 → OpenFile → Type 0) where
  pub AllFiles-find :
      (d : Int32) (f : OpenFile) (files : OpenFiles)
      → AllFiles P files
      → find d files ≡ some f
      → P d f
  unfolding find
  AllFiles-find d f [] u e = cc
  AllFiles-find d f ((d1, f1) ∷ files) (p, ps) e = elim (find-cons d d1 f f1 files e) [
    | inl (here, same) ↦ subst (λ x. P x f) here (subst (P d1) same p)
    | inr later ↦ AllFiles-find d f files ps later
  ]

  pub AllFiles-erase :
      (d : Int32) (files : OpenFiles) → AllFiles P files → AllFiles P (erase d files)
  unfolding erase
  AllFiles-erase d [] u = tt
  AllFiles-erase d ((d1, f1) ∷ files) (p, ps) = ground (arith, AllFiles-erase d files ps)

  pub AllFiles-update :
      (d : Int32) (g : OpenFile → OpenFile) (files : OpenFiles)
      → ((f : OpenFile) → P d f → P d (g f))
      → AllFiles P files
      → AllFiles P (update d g files)
  unfolding update
  AllFiles-update d g [] k u = tt
  AllFiles-update d g ((d1, f1) ∷ files) k (p, ps) = elim (update-cons d d1 f1 g files) [
    | inl (here, e) ↦
        subst (AllFiles P) (sym e)
          (subst (λ x. P x (g f1)) (sym here) (k f1 (subst (λ x. P x f1) here p)), ps)
    | inr (apart, e) ↦ subst (AllFiles P) (sym e) (p, AllFiles-update d g files k ps)
  ]

-- An update keeps descriptors distinct, and so does taking an entry out.
pub IsDistinct-update :
    (d : Int32) (g : OpenFile → OpenFile) (files : OpenFiles)
    → IsDistinct files
    → IsDistinct (update d g files)
unfolding update
IsDistinct-update d g [] u = tt
IsDistinct-update d g ((e, f) ∷ files) (apart, rest) = elim (update-cons d e f g files) [
  | inl (here, q) ↦ subst IsDistinct (sym q) (apart, rest)
  | inr (other, q) ↦
      subst IsDistinct (sym q) (
        AllFiles-update (λ x y. x ≢ e) d g files (λ y k. k) apart,
        IsDistinct-update d g files rest,
      )
]

pub IsDistinct-erase :
    (d : Int32) (files : OpenFiles) → IsDistinct files → IsDistinct (erase d files)
unfolding erase
IsDistinct-erase d [] u = tt
IsDistinct-erase d ((e, f) ∷ files) (apart, rest) =
    ground (arith, AllFiles-erase (λ x y. x ≢ e) d files apart, IsDistinct-erase d files rest)

-- A descriptor above all others is free, so the entry under it is new.
pub emplace-fresh :
    (d : Int32) (file : OpenFile) (files : OpenFiles)
    → AllFiles (λ e f. e < d) files
    → emplace d file files ≡ (d, file) ∷ files
unfolding emplace
emplace-fresh d file files below = elim (Option-cases (find d files)) [
  | inl free ↦ ground arith
  | inr (f, taken) ↦ absurd (omega (arith, AllFiles-find (λ e f. e < d) d f files below taken))
]

-- All entries of one descriptor have the name of one of them.
pub AllFiles-same_name :
    (name : Name) (files : OpenFiles)
    → IsDistinct files
    → AllFiles (λ d f. f.name ≡ name → AllFiles (λ e g. e ≡ d → g.name ≡ name) files) files
AllFiles-same_name name [] u = tt
AllFiles-same_name name ((d, f) ∷ files) (apart, rest) = (
  λ named. (
    λ same. named,
    AllFiles-map (λ e g. e ≢ d) (λ e g. e ≡ d → g.name ≡ name)
        (λ e g other same. absurd (other same)) files apart,
  ),
  AllFiles-map
      (λ e g. (e ≢ d) × (g.name ≡ name → AllFiles (λ e' g'. e' ≡ e → g'.name ≡ name) files))
      (λ e g. g.name ≡ name → AllFiles (λ e' g'. e' ≡ e → g'.name ≡ name) ((d, f) ∷ files))
      (λ e g (other, k) named. (λ same. absurd (other (sym same)), k named)) files
      (AllFiles-both (λ e g. e ≢ d)
        (λ e g. g.name ≡ name → AllFiles (λ e' g'. e' ≡ e → g'.name ≡ name) files) files apart
        (AllFiles-same_name name files rest)),
)

-- What holds of every entry holds of each.
pub AllFiles-each :
    (R : Int32 → Int32 → OpenFile → Type 0) (files : OpenFiles)
    → AllFiles (λ d f. AllFiles (R d) files → R d d f) files
AllFiles-each R [] = tt
AllFiles-each R ((d, f) ∷ files) = (
  λ (p, ps). p,
  AllFiles-map (λ e g. AllFiles (R e) files → R e e g)
      (λ e g. AllFiles (R e) ((d, f) ∷ files) → R e e g) (λ e g k (p, ps). k ps) files
      (AllFiles-each R files),
)
