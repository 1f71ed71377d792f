-- ===== src/FileIo/Taken.antt =====
-- host/src/file_io.cpp, `reopenSharedFiles`: how one entry of the file is turned over to the copy.
use kvm_hypervisor.Base.{
  ℕ, ◌≡◌, ◌≢◌, ◌⊎◌, inl, inr, refl, sym, subst, arith, some, true, false, List, [], ◌∷◌, ◌++◌,
}
use kvm_hypervisor.Base.Int.{Int32, pos}
use kvm_hypervisor.FileIo.Host.{Name, HostPath, Host, done, Reply-cases, seek_cur, seek_set}
use kvm_hypervisor.FileIo.Flags.{to_host_open_flags}
use kvm_hypervisor.FileIo.State.{OpenFile, OpenFiles, find, same_name}
use kvm_hypervisor.FileIo.Table.{
  AllFiles, AllFiles-map, AllFiles-find, IsDistinct, find-cons, find-update,
}
use kvm_hypervisor.FileIo.Private.{ReopenedFile, reopen_file, reopen_loop, switch_loop, switched}
use kvm_hypervisor.FileIo.Reopened.{
  AllReopened, reopen_loop-cons, reopen_loop-AllReopened, switch_loop-cons,
}

abbrev HasKey : Int32 → List ReopenedFile → Type 0
HasKey d [] = ⊥
HasKey d ((e, fd) ∷ reopened) = (e ≡ d) ⊎ HasKey d reopened

HasKey-append : (xs : List ReopenedFile) (d fd : ℕ) → HasKey d (xs ++ (d, fd) ∷ [])
HasKey-append [] d fd = inl refl
HasKey-append ((e, k) ∷ xs) d fd = inr (HasKey-append xs d fd)

HasKey-before : (xs : List ReopenedFile) (c d fd : ℕ) → HasKey c xs → HasKey c (xs ++ (d, fd) ∷ [])
HasKey-before [] c d fd h = elim h [ ]
HasKey-before ((e, k) ∷ xs) c d fd (inl q) = inl q
HasKey-before ((e, k) ∷ xs) c d fd (inr h) = inr (HasKey-before xs c d fd h)

-- Where descriptors are distinct, an entry of a descriptor is the one that is found.
AllFiles-found :
    (c : Int32) (file : OpenFile) (files : OpenFiles)
    → IsDistinct files
    → find c files ≡ some file
    → AllFiles (λ d f. d ≡ c → f ≡ file) files
AllFiles-found c file [] u found = tt
AllFiles-found c file ((e, k) ∷ files) (apart, rest) found =
    elim (find-cons c e file k files found) [
      | inl (here, same) ↦ (
        λ q. same,
        AllFiles-map (λ d f. d ≢ e) (λ d f. d ≡ c → f ≡ file) (λ d f other q. absurd (ground arith))
            files apart,
      )
      | inr later ↦ (
        λ q. absurd (AllFiles-find (λ d f. d ≢ e) c file files apart later (sym q)),
        AllFiles-found c file files rest later,
      )
    ]

module _ (H : Host) (path : HostPath) where
  -- The host descriptor was opened on the path with the flags of the entry, and moved to the offset at
  -- which the entry's own host descriptor stood right before that.
  abbrev pub IsReopenedAt : OpenFile → ℕ → Type 0
  IsReopenedAt file fd =
      (s : H.State) × (s1 : H.State) × (s2 : H.State) × (s3 : H.State) × (offset : ℕ) × (at : ℕ)
      × (H.lseek s file.host_descriptor (pos 0) seek_cur ≡ done s1 offset)
      × (H.open_file s1 path (to_host_open_flags file.flags) ≡ done s2 fd)
      × (H.lseek s2 fd (pos offset) seek_set ≡ done s3 at)

  reopen_file-IsReopenedAt :
      (file : OpenFile) (s s' : H.State) (fd : ℕ)
      → reopen_file H path file s ≡ done s' fd
      → IsReopenedAt file fd
  unfolding reopen_file
  reopen_file-IsReopenedAt file s s' fd h =
      elim (Reply-cases (H.lseek s file.host_descriptor (pos 0) seek_cur)) [
        | inl (s1, e) ↦ absurd (ground arith)
        | inr (s1, offset, e) ↦
            elim (Reply-cases (H.open_file s1 path (to_host_open_flags file.flags))) [
              | inl (s2, e1) ↦ absurd (ground arith)
              | inr (s2, fd1, e1) ↦ elim (Reply-cases (H.lseek s2 fd1 (pos offset) seek_set)) [
                | inl (s3, e2) ↦ absurd (ground arith)
                | inr (s3, at, e2) ↦
                    let same : fd1 ≡ fd = ground arith in
                    (s, s1, s2, s3, offset, at, e, ground arith, ground arith)
              ]
            ]
      ]

module _ (H : Host) (name : Name) (path : HostPath) where
  reopen_loop-keeps :
      (c : Int32) (files : OpenFiles) (acc r : List ReopenedFile) (s s' : H.State)
      → HasKey c acc
      → reopen_loop H name path files acc s ≡ done s' r
      → HasKey c r
  unfolding reopen_loop
  reopen_loop-keeps c [] acc r s s' k h = subst (HasKey c) (ground arith) k
  reopen_loop-keeps c ((d, f) ∷ files) acc r s s' k h =
      elim (reopen_loop-cons H name path d f files acc r s s' h) [
        | inl (t, h1) ↦ reopen_loop-keeps c files acc r s s' k h1
        | inr (s1, fd, t, n, made, h1) ↦
            reopen_loop-keeps c files (acc ++ (d, fd) ∷ []) r s1 s' (HasKey-before acc c d fd k) h1
      ]

  -- A shared file of the name is reopened.
  pub reopen_loop-HasKey :
      (c : Int32) (file : OpenFile) (files : OpenFiles) (acc r : List ReopenedFile) (s s' : H.State)
      → find c files ≡ some file
      → file.shared ≡ true
      → same_name file.name name ≡ true
      → reopen_loop H name path files acc s ≡ done s' r
      → HasKey c r
  unfolding find
  reopen_loop-HasKey c file [] acc r s s' found shared named h = cc
  reopen_loop-HasKey c file ((d, f) ∷ files) acc r s s' found shared named h =
      elim (reopen_loop-cons H name path d f files acc r s s' h) [
        | inl (t, h1) ↦ reopen_loop-HasKey c file files acc r s s' (ground arith) shared named h1
        | inr (s1, fd, t, n, made, h1) ↦ elim (find-cons c d file f files found) [
          | inl (here, same) ↦
              reopen_loop-keeps c files (acc ++ (d, fd) ∷ []) r s1 s'
                (subst (λ x. HasKey x (acc ++ (d, fd) ∷ [])) here (HasKey-append acc d fd)) h1
          | inr later ↦
              reopen_loop-HasKey c file files (acc ++ (d, fd) ∷ []) r s1 s' later shared named h1
        ]
      ]

  -- What the loop holds for a descriptor was reopened for the entry of that descriptor.
  pub reopen_loop-IsReopenedAt :
      (c : Int32) (file : OpenFile) (files : OpenFiles) (r : List ReopenedFile) (s s' : H.State)
      → IsDistinct files
      → find c files ≡ some file
      → reopen_loop H name path files [] s ≡ done s' r
      → AllReopened (λ d fd. d ≡ c → IsReopenedAt H path file fd) r
  reopen_loop-IsReopenedAt c file files r s s' apart found h =
      reopen_loop-AllReopened H name path (λ d fd. d ≡ c → IsReopenedAt H path file fd) files [] r s
        s'
        (AllFiles-map (λ d f. d ≡ c → f ≡ file)
          (λ d f.
            f.name ≡ name
            → (s s1 : H.State) (fd : ℕ) → reopen_file H path f s ≡ done s1 fd
            → d ≡ c
            → IsReopenedAt H path file fd)
          (λ d f same named s s1 fd made here.
            subst (λ x. IsReopenedAt H path x fd) (same here)
              (reopen_file-IsReopenedAt H path f s s1 fd made))
          files (AllFiles-found c file files apart found))
        tt h

module _ (H : Host) (path : HostPath) (P : ℕ → Type 0) where
  -- An entry of the same name and flags, which is private, has the path of the copy and a host
  -- descriptor as the predicate says.
  abbrev pub IsTaken : OpenFile → OpenFile → Type 0
  IsTaken old file =
      (file.shared ≡ false)
      × (file.host_path ≡ path)
      × (file.name ≡ old.name)
      × (file.flags ≡ old.flags)
      × P file.host_descriptor

  abbrev AreGood : Int32 → List ReopenedFile → Type 0
  AreGood c r = AllReopened (λ d fd. d ≡ c → P fd) r

  switch_loop-keeps :
      (c : Int32) (old f : OpenFile) (r : List ReopenedFile) (s : H.State) (files : OpenFiles)
      → find c files ≡ some f
      → IsTaken old f
      → AreGood c r
      → (f' : OpenFile) × (find c (switch_loop H path r s files).1 ≡ some f') × IsTaken old f'
  unfolding switch_loop
  switch_loop-keeps c old f [] s files h t u = (f, h, t)
  switch_loop-keeps c old f ((d, fd) ∷ r) s files h t (good, rest) =
      elim (switch_loop-cons H path d fd r s files) [
        | inl (none_open, e) ↦
            subst (λ x. (f' : OpenFile) × (find c x.1 ≡ some f') × IsTaken old f') (sym e)
              (switch_loop-keeps c old f r s files h t rest)
        | inr (g, found, e) ↦
            subst (λ x. (f' : OpenFile) × (find c x.1 ≡ some f') × IsTaken old f') (sym e)
              (elim (find-update c d f (switched H path fd) files h) [
                | inl (same, h1) ↦
                    switch_loop-keeps c old (switched H path fd f) r _ _ h1
                      (refl, refl, t.2, t.3, good (sym same)) rest
                | inr (other, h1) ↦ switch_loop-keeps c old f r _ _ h1 t rest
              ])
      ]

  -- Every reopened entry is turned over to the copy.
  pub switch_loop-IsTaken :
      (c : Int32) (old f : OpenFile) (r : List ReopenedFile) (s : H.State) (files : OpenFiles)
      → find c files ≡ some f
      → f.name ≡ old.name
      → f.flags ≡ old.flags
      → HasKey c r
      → AreGood c r
      → (f' : OpenFile) × (find c (switch_loop H path r s files).1 ≡ some f') × IsTaken old f'
  switch_loop-IsTaken c old f [] s files h n l k u = elim k [ ]
  switch_loop-IsTaken c old f ((d, fd) ∷ r) s files h n l k (good, rest) =
      elim (switch_loop-cons H path d fd r s files) [
        | inl (none_open, e) ↦
            subst (λ x. (f' : OpenFile) × (find c x.1 ≡ some f') × IsTaken old f') (sym e)
              (switch_loop-IsTaken c old f r s files h n l
                (elim k [ inl same ↦ absurd (ground arith) | inr later ↦ later ]) rest)
        | inr (g, found, e) ↦
            subst (λ x. (f' : OpenFile) × (find c x.1 ≡ some f') × IsTaken old f') (sym e)
              (elim (find-update c d f (switched H path fd) files h) [
                | inl (same, h1) ↦
                    switch_loop-keeps c old (switched H path fd f) r _ _ h1
                      (refl, refl, n, l, good (sym same)) rest
                | inr (other, h1) ↦
                    switch_loop-IsTaken c old f r _ _ h1 n l
                      (elim k [ inl same ↦ absurd (other (sym same)) | inr later ↦ later ]) rest
              ])
      ]
