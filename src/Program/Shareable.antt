-- ===== src/Program/Shareable.antt =====
-- host/src/main.cpp, `configureSharedFiles`: exactly which lists of paths it accepts.
use Prim.Native.String.{String}
use kvm_hypervisor.Base.{
  ◌≡◌, ◌≢◌, ◌∙◌, ◌↔◌, inl, inr, refl, sym, ap, Bool, true, none, List, [], ◌∷◌,
}
use kvm_hypervisor.FileIo.Host.{Name}
use kvm_hypervisor.FileIo.State.{find_shared}
use kvm_hypervisor.Program.{Paths, Files, configure_shared_files}
use kvm_hypervisor.Program.SharedFiles.{
  IsUsable, with_path, configure-step, configure_cases, find-with_path-none, configure,
}

module _ (P : Paths) where
  -- What the list must be like: each path is usable, and no two have the same file name.
  abbrev pub AllApart : String → List String → Type 0
  AllApart p [] = Unit
  AllApart p (q ∷ qs) = (P.filename p ≢ P.filename q) × AllApart p qs

  abbrev pub IsShareable : List String → Type 0
  IsShareable [] = Unit
  IsShareable (p ∷ ps) = ((path : Name) × IsUsable P p path) × AllApart p ps × IsShareable ps

  -- No name of the list is in the map.
  abbrev AllFresh : List String → Files → Type 0
  AllFresh [] files = Unit
  AllFresh (p ∷ ps) files = (find_shared (P.filename p) files ≡ none) × AllFresh ps files

  AllFresh-with_path :
      (p : String) (ps : List String) (files : Files) (path : Name)
      → AllFresh ps (with_path P p path files) ↔ (AllApart p ps × AllFresh ps files)
  AllFresh-with_path p [] files path = (λ u. (tt, tt), λ u. tt)
  AllFresh-with_path p (q ∷ ps) files path =
      let (to, from) = find-with_path-none P p files path (P.filename q) in
      let (to1, from1) = AllFresh-with_path p ps files path in
      (
        λ (e, rest).
            let (apart, fresh) = to e in
            let (aparts, freshes) = to1 rest in ((apart, aparts), (fresh, freshes)),
        λ ((apart, aparts), (fresh, freshes)). (from (apart, fresh), from1 (aparts, freshes)),
      )

  configure_iff :
      (ps : List String) (files : Files)
      → ((configure P ps files).0 ≡ true) ↔ (IsShareable ps × AllFresh ps files)
  unfolding configure_shared_files
  configure_iff [] files = (λ e. (tt, tt), λ u. refl)
  configure_iff (p ∷ ps) files = (
    λ good. elim (configure_cases P p ps files) [
      | inl bad ↦ absurd (cc)
      | inr (path, step) ↦
          let next = configure-step P p ps files path step in
          let good1 = sym (ap (λ (r : Bool × Files). r.0) next) ∙ good in
          let (shareable, fresh) = (configure_iff ps (with_path P p path files)).0 good1 in
          let (aparts, freshes) = (AllFresh-with_path p ps files path).0 fresh in
          (((path, step.usable), aparts, shareable), (step.fresh, freshes))
    ],
    λ (((path, usable), aparts, shareable), (fresh, freshes)).
        ap (λ (r : Bool × Files). r.0)
          (configure-step P p ps files path (record { usable = usable; fresh = fresh }))
        ∙ (configure_iff ps (with_path P p path files)).1
            (shareable, (AllFresh-with_path p ps files path).1 (aparts, freshes)),
  )

  AllFresh-empty : (ps : List String) → AllFresh ps []
  unfolding find_shared
  AllFresh-empty [] = tt
  AllFresh-empty (p ∷ ps) = (refl, AllFresh-empty ps)

  -- The shared files are accepted exactly when each path leads to a regular file with a name that a
  -- guest can use and no two of them have the same file name.
  pub configure_shared_files_iff :
      (ps : List String) → ((configure_shared_files P ps []).0 ≡ true) ↔ IsShareable ps
  configure_shared_files_iff ps = (
    λ good. ((configure_iff ps []).0 good).0,
    λ shareable. (configure_iff ps []).1 (shareable, AllFresh-empty ps),
  )
