-- ===== src/FileIo/Reopened.antt =====
-- host/src/file_io.cpp, `reopenSharedFiles`: what its two loops leave.
use kvm_hypervisor.Base.{
  ℕ, ◌≡◌, ◌⊎◌, inl, inr, sym, subst, arith, none, some, Option-cases, true, false, not, ◌||◌,
  Bool-cases, List, [], ◌∷◌, ◌++◌,
}
use kvm_hypervisor.Base.Int.{Int32}
use kvm_hypervisor.FileIo.Host.{Name, HostPath, Host, done, Reply-cases}
use kvm_hypervisor.FileIo.State.{OpenFile, OpenFiles, find, update, same_name}
use kvm_hypervisor.FileIo.Table.{
  AllFiles, AllFiles-map, AllFiles-update, IsDistinct, IsDistinct-update, same_name→eq,
}
use kvm_hypervisor.FileIo.Private.{
  ReopenedFile, reopen_file, reopen_loop, switch_loop, switched, closed,
}

-- A predicate of the files that were reopened, and one of their descriptors.
abbrev pub AllReopened : (Int32 → ℕ → Type 0) → List ReopenedFile → Type 0
AllReopened Q [] = Unit
AllReopened Q ((d, fd) ∷ reopened) = Q d fd × AllReopened Q reopened

abbrev pub AllKeys : (Int32 → Type 0) → List ReopenedFile → Type 0
AllKeys Q [] = Unit
AllKeys Q ((d, fd) ∷ reopened) = Q d × AllKeys Q reopened

AllKeys-AllReopened :
    (Q : Int32 → Type 0) (xs : List ReopenedFile) → AllReopened (λ d fd. Q d) xs → AllKeys Q xs
AllKeys-AllReopened Q [] u = tt
AllKeys-AllReopened Q ((d, fd) ∷ xs) (q, qs) = (q, AllKeys-AllReopened Q xs qs)

AllReopened-append :
    (Q : Int32 → ℕ → Type 0) (xs : List ReopenedFile) (d fd : ℕ)
    → AllReopened Q xs
    → Q d fd
    → AllReopened Q (xs ++ (d, fd) ∷ [])
AllReopened-append Q [] d fd u q = (q, tt)
AllReopened-append Q ((e, k) ∷ xs) d fd (p, ps) q = (p, AllReopened-append Q xs d fd ps q)

module _ (H : Host) (name : Name) (path : HostPath) where
  -- A round passes an entry by, or reopens it.
  pub reopen_loop-cons :
      (d : Int32) (f : OpenFile) (files : OpenFiles) (acc r : List ReopenedFile) (s s' : H.State)
      → reopen_loop H name path ((d, f) ∷ files) acc s ≡ done s' r
      → (((f.shared ≡ false) ⊎ (same_name f.name name ≡ false))
          × (reopen_loop H name path files acc s ≡ done s' r))
        ⊎ ((s1 : H.State) × (fd : ℕ) × (f.shared ≡ true)
            × (same_name f.name name ≡ true)
            × (reopen_file H path f s ≡ done s1 fd)
            × (reopen_loop H name path files (acc ++ (d, fd) ∷ []) s1 ≡ done s' r))
  unfolding reopen_loop
  reopen_loop-cons d f files acc r s s' h =
      elim (Bool-cases (not f.shared || not (same_name f.name name))) [
        | inl t ↦ ground arith
        | inr t ↦ elim (Reply-cases (reopen_file H path f s)) [
          | inl (s1, e) ↦ ground arith
          | inr (s1, fd, e) ↦ inr (s1, fd, ground arith, ground arith, e, ground arith)
        ]
      ]

  -- Only files of the name are reopened, each by `open` and `lseek`.
  pub reopen_loop-AllReopened :
      (Q : Int32 → ℕ → Type 0) (files : OpenFiles) (acc r : List ReopenedFile) (s s' : H.State)
      → AllFiles
          (λ d f.
            f.name ≡ name
            → (s s1 : H.State) (fd : ℕ) → reopen_file H path f s ≡ done s1 fd
            → Q d fd)
          files
      → AllReopened Q acc
      → reopen_loop H name path files acc s ≡ done s' r
      → AllReopened Q r
  unfolding reopen_loop
  reopen_loop-AllReopened Q [] acc r s s' u k h = subst (AllReopened Q) (ground arith) k
  reopen_loop-AllReopened Q ((d, f) ∷ files) acc r s s' (q, qs) k h =
      elim (reopen_loop-cons d f files acc r s s' h) [
        | inl (t, h1) ↦ reopen_loop-AllReopened Q files acc r s s' qs k h1
        | inr (s1, fd, t, n, made, h1) ↦
            reopen_loop-AllReopened Q files (acc ++ (d, fd) ∷ []) r s1 s' qs
              (AllReopened-append Q acc d fd k (q (same_name→eq f.name name n) s s1 fd made)) h1
      ]

  pub reopen_loop-AllKeys :
      (Q : Int32 → Type 0) (files : OpenFiles) (r : List ReopenedFile) (s s' : H.State)
      → AllFiles (λ d f. f.name ≡ name → Q d) files
      → reopen_loop H name path files [] s ≡ done s' r
      → AllKeys Q r
  reopen_loop-AllKeys Q files r s s' qs h = AllKeys-AllReopened Q r (
      reopen_loop-AllReopened (λ d fd. Q d) files [] r s s'
        (AllFiles-map (λ d f. f.name ≡ name → Q d)
          (λ d f.
            f.name ≡ name → (s s1 : H.State) (fd : ℕ) → reopen_file H path f s ≡ done s1 fd → Q d)
          (λ d f q named s s1 fd made. q named) files qs)
        tt h)

module _ (H : Host) (path : HostPath) where
  -- A round changes nothing, or closes the old host descriptor of an entry and updates the entry.
  pub switch_loop-cons :
      (d fd : ℕ) (r : List ReopenedFile) (s : H.State) (files : OpenFiles)
      → ((find d files ≡ none)
          × (switch_loop H path ((d, fd) ∷ r) s files ≡ switch_loop H path r s files))
        ⊎ ((f : OpenFile) × (find d files ≡ some f)
            × (switch_loop H path ((d, fd) ∷ r) s files
                ≡ switch_loop H path r
                    (closed H (H.close s f.host_descriptor))
                    (update d (switched H path fd) files)))
  unfolding switch_loop
  switch_loop-cons d fd r s files = elim (Option-cases (find d files)) [
    | inl e ↦ inl (e, ground arith)
    | inr (f, e) ↦ inr (f, e, ground arith)
  ]

  -- What the change of a reopened entry keeps of each entry, the whole loop keeps.
  pub switch_loop-AllFiles :
      (Q : Int32 → Type 0) (W : Int32 → OpenFile → Type 0)
      → ((d : Int32) (fd : ℕ) (f : OpenFile) → Q d → W d f → W d (switched H path fd f))
      → (r : List ReopenedFile) (s : H.State) (files : OpenFiles) → AllKeys Q r
      → AllFiles W files
      → AllFiles W (switch_loop H path r s files).1
  unfolding switch_loop
  switch_loop-AllFiles Q W k [] s files qs ws = ws
  switch_loop-AllFiles Q W k ((d, fd) ∷ r) s files (q, qs) ws =
      elim (switch_loop-cons d fd r s files) [
        | inl (none_open, e) ↦
            subst (λ x. AllFiles W x.1) (sym e) (switch_loop-AllFiles Q W k r s files qs ws)
        | inr (f, found, e) ↦
            subst (λ x. AllFiles W x.1) (sym e)
              (switch_loop-AllFiles Q W k r _ _ qs
                (AllFiles-update W d (switched H path fd) files (λ f w. k d fd f q w) ws))
      ]

  pub switch_loop-IsDistinct :
      (r : List ReopenedFile) (s : H.State) (files : OpenFiles)
      → IsDistinct files
      → IsDistinct (switch_loop H path r s files).1
  unfolding switch_loop
  switch_loop-IsDistinct [] s files u = u
  switch_loop-IsDistinct ((d, fd) ∷ r) s files u = elim (switch_loop-cons d fd r s files) [
    | inl (none_open, e) ↦ subst (λ x. IsDistinct x.1) (sym e) (switch_loop-IsDistinct r s files u)
    | inr (f, found, e) ↦
        subst (λ x. IsDistinct x.1) (sym e)
          (switch_loop-IsDistinct r _ _ (IsDistinct-update d (switched H path fd) files u))
  ]
