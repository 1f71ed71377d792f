-- ===== src/FileIo/Ledger/Loops.antt =====
-- host/src/file_io.cpp: the host descriptors under `reopenSharedFiles` and `closeGuestFiles`.
use kvm_hypervisor.Base.{
  ℕ, ◌+◌, ◌≡◌, inl, inr, refl, sym, subst, ap, arith, some, not, ◌||◌, Bool-cases, List, [], ◌∷◌,
  ◌++◌, ◌==◌,
}
use kvm_hypervisor.Base.Family.{bit}
use kvm_hypervisor.Base.Int.{Int32, pos}
use kvm_hypervisor.FileIo.Host.{
  Name, HostPath, Host, Reply, failed, done, Reply-cases, seek_cur, seek_set,
}
use kvm_hypervisor.FileIo.Flags.{to_host_open_flags}
use kvm_hypervisor.FileIo.State.{OpenFile, OpenFiles, find, update, erase, same_name}
use kvm_hypervisor.FileIo.Private.{
  ReopenedFile, reopen_file, reopen_loop, switch_loop, switched, close_reopened_files,
}
use kvm_hypervisor.FileIo.Reopened.{AllKeys}
use kvm_hypervisor.FileIo.Table.{find-update}
use kvm_hypervisor.FileIo.Port.{close_all}
use kvm_hypervisor.FileIo.Ledger.{
  HostAccount, state_of, IsHost, Owes, Owes-opened, Owes-congr, Owes-same, Owes-close, Owes-reply,
}

-- How often a descriptor stands in the table, and in a list of reopened files.
abbrev pub uses : OpenFiles → ℕ → ℕ
uses [] n = 0
uses ((d, file) ∷ files) n = bit (file.host_descriptor == n) + uses files n

abbrev pub pending : List ReopenedFile → ℕ → ℕ
pending [] n = 0
pending ((d, fd) ∷ files) n = bit (fd == n) + pending files n

pending-append :
    (xs : List ReopenedFile) (d fd n : ℕ)
    → pending (xs ++ (d, fd) ∷ []) n ≡ bit (fd == n) + pending xs n
pending-append [] d fd n = refl
pending-append ((e, k) ∷ xs) d fd n = omega (arith, pending-append xs d fd n)

-- A change of one entry's descriptor.
uses-update :
    (d : Int32) (f : OpenFile) (g : OpenFile → OpenFile) (files : OpenFiles) (n : ℕ)
    → find d files ≡ some f
    → uses (update d g files) n + bit (f.host_descriptor == n)
      ≡ uses files n + bit ((g f).host_descriptor == n)
unfolding find update
uses-update d f g [] n h = cc
uses-update d f g ((e, k) ∷ files) n h = ground (arith, uses-update d f g files n)

pub uses-erase :
    (d : Int32) (f : OpenFile) (files : OpenFiles) (n : ℕ)
    → find d files ≡ some f
    → bit (f.host_descriptor == n) + uses (erase d files) n ≡ uses files n
unfolding find erase
uses-erase d f [] n h = cc
uses-erase d f ((e, k) ∷ files) n h = ground (arith, uses-erase d f files n)

module _ (H : Host) (account : H.State → HostAccount) (L : IsHost H account)
    (base : HostAccount) where
  -- What the descriptor of a call that fails, or of one that succeeds, owes.
  abbrev pub Reopens : (ℕ → ℕ) → Reply H.State ℕ → Type 0
  Reopens extra (failed s) = Owes base extra (account s)
  Reopens extra (done s fd) = Owes base (λ n. bit (fd == n) + extra n) (account s)

  reopen_file-Reopens :
      (path : HostPath) (file : OpenFile) (s : H.State) (extra : ℕ → ℕ)
      → Owes base extra (account s)
      → Reopens extra (reopen_file H path file s)
  unfolding reopen_file
  reopen_file-Reopens path file s extra h =
      let old = file.host_descriptor in
      let left : (s1 : H.State)
          → state_of (H.lseek s old (pos 0) seek_cur) ≡ s1
          → Owes base extra (account s1) =
        λ s1 e.
          Owes-reply H account L base (H.lseek s old (pos 0) seek_cur) s s1 extra e
            (L.lseek_lem s old (pos 0) seek_cur) h in
      elim (Reply-cases (H.lseek s old (pos 0) seek_cur)) [
        | inl (s1, e) ↦ rw (e, Reopens) (left s1 (ap state_of e))
        | inr (s1, offset, e) ↦
            let h1 = left s1 (ap state_of e) in
            let flags = to_host_open_flags file.flags in
            elim (Reply-cases (H.open_file s1 path flags)) [
              | inl (s2, e2) ↦
                  rw (e, e2, Reopens)
                    (Owes-same H account L base s1 s2 extra (L.open_file_failed s1 s2 path flags e2)
                      h1)
              | inr (s2, fd, e2) ↦
                  let h2 : Owes base (λ n. bit (fd == n) + extra n) (account s2) =
                    subst (Owes base (λ n. bit (fd == n) + extra n))
                      (sym (L.open_file_done s1 s2 path flags fd e2))
                      (Owes-opened base (account s1) extra fd h1) in
                  let moved : (s3 : H.State)
                      → state_of (H.lseek s2 fd (pos offset) seek_set) ≡ s3
                      → Owes base (λ n. bit (fd == n) + extra n) (account s3) =
                    λ s3 e3.
                      Owes-reply H account L base (H.lseek s2 fd (pos offset) seek_set) s2 s3
                        (λ n. bit (fd == n) + extra n) e3 (L.lseek_lem s2 fd (pos offset) seek_set)
                        h2 in
                  elim (Reply-cases (H.lseek s2 fd (pos offset) seek_set)) [
                    | inl (s3, e3) ↦
                        rw (e, e2, e3, Reopens)
                          (Owes-close H account L base s3 fd extra (moved s3 (ap state_of e3)))
                    | inr (s3, at, e3) ↦ rw (e, e2, e3, Reopens) (moved s3 (ap state_of e3))
                  ]
            ]
      ]

  close_reopened_files-Owes :
      (r : List ReopenedFile) (s : H.State) (extra : ℕ → ℕ)
      → Owes base (λ n. pending r n + extra n) (account s)
      → Owes base extra (account (close_reopened_files H r s))
  unfolding close_reopened_files
  close_reopened_files-Owes [] s extra h = Owes-congr base (account s) _ _ (λ n. omega arith) h
  close_reopened_files-Owes ((d, fd) ∷ r) s extra h = close_reopened_files-Owes r _ extra (
      Owes-close H account L base s fd (λ n. pending r n + extra n)
        (Owes-congr base (account s) _ _ (λ n. omega arith) h))

  -- What the first loop owes: on failure it has closed all that it opened.
  abbrev pub LoopOwes : (ℕ → ℕ) → Reply H.State (List ReopenedFile) → Type 0
  LoopOwes extra (failed s) = Owes base extra (account s)
  LoopOwes extra (done s r) = Owes base (λ n. pending r n + extra n) (account s)

  pub reopen_loop-Owes :
      (name : Name) (path : HostPath) (files : OpenFiles) (acc : List ReopenedFile) (s : H.State)
      → (extra : ℕ → ℕ) → Owes base (λ n. pending acc n + extra n) (account s)
      → LoopOwes extra (reopen_loop H name path files acc s)
  unfolding reopen_loop
  reopen_loop-Owes name path [] acc s extra h = h
  reopen_loop-Owes name path ((d, f) ∷ files) acc s extra h =
      elim (Bool-cases (not f.shared || not (same_name f.name name))) [
        | inl skip ↦ rw (skip, LoopOwes) (reopen_loop-Owes name path files acc s extra h)
        | inr take ↦
            let opens = reopen_file-Reopens path f s (λ n. pending acc n + extra n) h in
            elim (Reply-cases (reopen_file H path f s)) [
              | inl (s1, e) ↦
                  rw (take, e, LoopOwes)
                    (close_reopened_files-Owes acc s1 extra
                      (subst (Reopens (λ n. pending acc n + extra n)) e opens))
              | inr (s1, fd, e) ↦
                  rw (take, e, LoopOwes)
                    (reopen_loop-Owes name path files (acc ++ (d, fd) ∷ []) s1 extra (
                      Owes-congr base (account s1) _ _
                        (λ n. omega (arith, pending-append acc d fd n))
                        (subst (Reopens (λ n. pending acc n + extra n)) e opens)))
            ]
      ]

  pub close_all-Owes :
      (files : OpenFiles) (s : H.State) (extra : ℕ → ℕ)
      → Owes base (λ n. uses files n + extra n) (account s)
      → Owes base extra (account (close_all H files s))
  unfolding close_all
  close_all-Owes [] s extra h = Owes-congr base (account s) _ _ (λ n. omega arith) h
  close_all-Owes ((d, f) ∷ files) s extra h = close_all-Owes files _ extra (
      Owes-close H account L base s f.host_descriptor (λ n. uses files n + extra n)
        (Owes-congr base (account s) _ _ (λ n. omega arith) h))

  abbrev pub IsOpen : OpenFiles → Int32 → Type 0
  IsOpen files d = (f : OpenFile) × (find d files ≡ some f)

  IsOpen-switched :
      (path : HostPath) (d fd : ℕ) (files : OpenFiles) (r : List ReopenedFile)
      → AllKeys (IsOpen files) r
      → AllKeys (IsOpen (update d (switched H path fd) files)) r
  IsOpen-switched path d fd files [] u = tt
  IsOpen-switched path d fd files ((c, k) ∷ r) ((f, here), rest) = (
    elim (find-update c d f (switched H path fd) files here) [
      | inl (same, e) ↦ (switched H path fd f, e)
      | inr (other, e) ↦ (f, e)
    ],
    IsOpen-switched path d fd files r rest,
  )

  -- The second loop closes as many descriptors as it turns over.
  pub switch_loop-Owes :
      (path : HostPath) (r : List ReopenedFile) (s : H.State) (files : OpenFiles)
      → AllKeys (IsOpen files) r
      → Owes base (λ n. pending r n + uses files n) (account s)
      → let (s', files') = switch_loop H path r s files in Owes base (uses files') (account s')
  unfolding switch_loop
  switch_loop-Owes path [] s files u h = Owes-congr base (account s) _ _ (λ n. omega arith) h
  switch_loop-Owes path ((d, fd) ∷ r) s files ((f, here), rest) h =
      rw (here, switch_loop)
        (switch_loop-Owes path r _ (update d (switched H path fd) files)
          (IsOpen-switched path d fd files r rest)
          (Owes-close H account L base s f.host_descriptor
            (λ n. pending r n + uses (update d (switched H path fd) files) n)
            (Owes-congr base (account s) _ _
              (λ n. omega (arith, uses-update d f (switched H path fd) files n here)) h)))
