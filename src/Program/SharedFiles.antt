-- ===== src/Program/SharedFiles.antt =====
-- host/src/main.cpp, `configureSharedFiles`: which lists of paths it accepts, and what map it makes.
use Prim.Native.String.{String}
use mathlib.Core.List.{Memᴰ}
use kvm_hypervisor.Base.{
  ◌≡◌, ◌≢◌, ◌∙◌, ◌⊎◌, ◌↔◌, inl, inr, refl, sym, subst, ap, arith, Bool, true, false, none, some,
  Option-cases, Bool-cases, List, [], ◌∷◌,
}
use kvm_hypervisor.FileIo.Host.{Name, HostPath, configured}
use kvm_hypervisor.FileIo.Names.{is_valid_guest_file_name}
use kvm_hypervisor.FileIo.State.{find_shared, same_name}
use kvm_hypervisor.FileIo.Table.{same_name_refl, same_name→eq}
use kvm_hypervisor.Program.{Paths, Files, configure_shared_files}

module _ (P : Paths) where
  -- A path to a regular file with a name that a guest can use.
  abbrev pub IsUsable : String → Name → Type 0
  IsUsable p path =
      (P.canonical p ≡ some path)
      × (P.is_regular_file path ≡ true)
      × (is_valid_guest_file_name (P.filename p) ≡ true)

  pub record IsStep (p : String) (files : Files) (path : Name) : Type 0 where
    pub usable : IsUsable p path
    pub fresh : find_shared (P.filename p) files ≡ none

  abbrev pub with_path : String → Name → Files → Files
  with_path p path files = (P.filename p, configured path) ∷ files

  pub configure-step :
      (p : String) (ps : List String) (files : Files) (path : Name)
      → IsStep p files path
      → configure_shared_files P (p ∷ ps) files
        ≡ configure_shared_files P ps (with_path p path files)
  unfolding configure_shared_files
  configure-step p ps files path h =
      let (can, regular, valid) = h.usable in let fresh = h.fresh in ground arith

  pub configure_cases :
      (p : String) (ps : List String) (files : Files)
      → ((configure_shared_files P (p ∷ ps) files).0 ≡ false)
        ⊎ ((path : Name) × IsStep p files path)
  unfolding configure_shared_files
  configure_cases p ps files = elim (Option-cases (P.canonical p)) [
    | inl e ↦ inl (ground arith)
    | inr (path, can) ↦ elim (Bool-cases (P.is_regular_file path)) [
      | inl regular ↦ elim (Bool-cases (is_valid_guest_file_name (P.filename p))) [
        | inl valid ↦ elim (Option-cases (find_shared (P.filename p) files)) [
          | inl fresh ↦ inr (path, record { usable = (can, regular, valid); fresh = fresh })
          | inr (old, e) ↦ inl (ground arith)
        ]
        | inr e ↦ inl (ground arith)
      ]
      | inr e ↦ inl (ground arith)
    ]
  ]

  -- What stands in the map stays there.
  find-with_path :
      (p : String) (files : Files) (path : Name)
      → find_shared (P.filename p) files ≡ none
      → (n : Name) (h : HostPath) → find_shared n files ≡ some h
      → find_shared n (with_path p path files) ≡ some h
  unfolding find_shared
  find-with_path p files path fresh n h e = elim (Bool-cases (same_name (P.filename p) n)) [
    | inl same ↦
        let fresh1 =
          subst (λ m. find_shared m files ≡ none) (same_name→eq (P.filename p) n same) fresh in
        absurd (cc)
    | inr other ↦ rw (other, e) refl
  ]

  find-with_path_own :
      (p : String) (files : Files) (path : Name)
      → find_shared (P.filename p) (with_path p path files) ≡ some (configured path)
  unfolding find_shared
  find-with_path_own p files path = rw (same_name_refl (P.filename p)) refl

  pub find-with_path-none :
      (p : String) (files : Files) (path n : Name)
      → (find_shared n (with_path p path files) ≡ none)
        ↔ ((P.filename p ≢ n) × (find_shared n files ≡ none))
  unfolding find_shared
  find-with_path-none p files path n = elim (Bool-cases (same_name (P.filename p) n)) [
    | inl same ↦
        (λ e. ground arith, λ (apart, e). absurd (apart (same_name→eq (P.filename p) n same)))
    | inr other ↦ (
      λ e. (λ q. ground (arith, same_name_refl n, ap (λ m. same_name m n) q), ground arith),
      λ (apart, e). ground arith,
    )
  ]

  abbrev pub configure : List String → Files → Bool × Files
  configure = configure_shared_files P

  configure_keeps :
      (ps : List String) (files : Files)
      → (configure ps files).0 ≡ true
      → (n : Name) (h : HostPath) → find_shared n files ≡ some h
      → find_shared n (configure ps files).1 ≡ some h
  unfolding configure_shared_files
  configure_keeps [] files good n h e = e
  configure_keeps (p ∷ ps) files good n h e = elim (configure_cases p ps files) [
    | inl bad ↦ absurd (cc)
    | inr (path, step) ↦
        let next = configure-step p ps files path step in
        ap (λ (r : Bool × Files). find_shared n r.1) next
        ∙ configure_keeps ps (with_path p path files)
            (sym (ap (λ (r : Bool × Files). r.0) next) ∙ good) n h
            (find-with_path p files path step.fresh n h e)
  ]

  -- Each path is usable, and a guest finds it under its file name.
  abbrev pub AllShared : List String → Files → Type 0
  AllShared [] files = Unit
  AllShared (p ∷ ps) files =
      ((path : Name) × IsUsable p path
        × (find_shared (P.filename p) files ≡ some (configured path)))
      × AllShared ps files

  -- Each name in the map is the file name of one of the paths.
  abbrev pub AllNamed : Files → List String → Type 0
  AllNamed [] ps = Unit
  AllNamed ((n, h) ∷ files) ps = ((p : String) × Memᴰ p ps × (P.filename p ≡ n)) × AllNamed files ps

  configure-AllShared :
      (ps : List String) (files : Files)
      → (configure ps files).0 ≡ true
      → AllShared ps (configure ps files).1
  configure-AllShared [] files good = tt
  configure-AllShared (p ∷ ps) files good = elim (configure_cases p ps files) [
    | inl bad ↦ absurd (cc)
    | inr (path, step) ↦
        let next = configure-step p ps files path step in
        let good1 = sym (ap (λ (r : Bool × Files). r.0) next) ∙ good in
        subst (λ (r : Bool × Files). AllShared (p ∷ ps) r.1) (sym next)
          (
            (
              path,
              step.usable,
              configure_keeps ps (with_path p path files) good1 (P.filename p) (configured path)
                  (find-with_path_own p files path),
            ),
            configure-AllShared ps (with_path p path files) good1,
          )
  ]

  configure-AllNamed :
      (ps all : List String) (files : Files)
      → (configure ps files).0 ≡ true
      → AllNamed files all
      → ((p : String) → Memᴰ p ps → Memᴰ p all)
      → AllNamed (configure ps files).1 all
  unfolding configure_shared_files
  configure-AllNamed [] all files good named sub = named
  configure-AllNamed (p ∷ ps) all files good named sub = elim (configure_cases p ps files) [
    | inl bad ↦ absurd (cc)
    | inr (path, step) ↦
        let next = configure-step p ps files path step in
        let good1 = sym (ap (λ (r : Bool × Files). r.0) next) ∙ good in
        subst (λ (r : Bool × Files). AllNamed r.1 all) (sym next)
          (configure-AllNamed ps all (with_path p path files) good1
            ((p, sub p (Memᴰ.head refl), refl), named) (λ q m. sub q (Memᴰ.tail m)))
  ]

  -- When the shared files are configured, each of the given paths leads to a regular file with a name
  -- that a guest can use, and the map gives that file under that name; and each name in the map is the
  -- file name of a given path.
  pub configure_shared_files-AllShared :
      (ps : List String)
      → (configure_shared_files P ps []).0 ≡ true
      → let files = (configure_shared_files P ps []).1 in AllShared ps files × AllNamed files ps
  configure_shared_files-AllShared ps good =
      (configure-AllShared ps [] good, configure-AllNamed ps ps [] good tt (λ p m. m))
