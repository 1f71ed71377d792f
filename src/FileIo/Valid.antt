-- ===== src/FileIo/Valid.antt =====
-- host/src/file_io.cpp: the well-formedness of a VM's table of open files.
use kvm_hypervisor.Base.{
  ℕ, ◌≤◌, ◌<◌, ◌≡◌, ◌⊎◌, inl, inr, refl, sym, subst, ap, arith, some, true, false, Bool-cases, List,
  [],
}
use kvm_hypervisor.Base.Int.{Int32}
use kvm_hypervisor.FileIo.Host.{Name, HostPath, local_file, Host, done}
use kvm_hypervisor.FileIo.Names.{is_valid_guest_file_name}
use kvm_hypervisor.FileIo.Flags.{are_valid_open_flags}
use kvm_hypervisor.FileIo.State.{OpenFile, FileState, World, find_shared}
use kvm_hypervisor.FileIo.Table.{
  AllFiles, AllFiles-map, AllFiles-both, AllFiles-first, IsDistinct, AllFiles-same_name,
  AllFiles-each,
}
use kvm_hypervisor.FileIo.Private.{
  ReopenedFile, reopen_loop, switch_loop, copy_for_write, prepare_file_for_write,
}
use kvm_hypervisor.FileIo.Reopened.{
  reopen_loop-AllKeys, switch_loop-AllFiles, switch_loop-IsDistinct,
}
use kvm_hypervisor.FileIo.CopyOnWrite.{IsReopened, copy_for_write-cases, IsSame}

-- A file lies where the VM may reach: its own file of a valid name, or the shared file of that name.
abbrev pub IsReachable : ℕ → List (Name × HostPath) → OpenFile → Type 0
IsReachable id shared_files file =
    (is_valid_guest_file_name file.name ≡ true)
    × (are_valid_open_flags file.flags ≡ true)
    × (((file.shared ≡ false) × (file.host_path ≡ local_file id file.name))
        ⊎ ((file.shared ≡ true) × (find_shared file.name shared_files ≡ some file.host_path)))

-- The descriptors of the table lie between the first one and the next one.
abbrev pub IsEntry : ℕ → List (Name × HostPath) → Int32 → Int32 → OpenFile → Type 0
IsEntry id shared_files next d file = (3 ≤ d) × (d < next) × IsReachable id shared_files file

abbrev pub IsTable : ℕ → List (Name × HostPath) → FileState → Type 0
IsTable id shared_files files =
    AllFiles (IsEntry id shared_files files.next_descriptor) files.open_files
    × IsDistinct files.open_files
    × (3 ≤ files.next_descriptor)

module _ (H : Host) where
  abbrev pub IsValid : World H → Type 0
  IsValid w = IsTable w.id w.shared_files w.files

  -- The world has the table, with the rest that the invariant reads as before.
  abbrev pub HasTable : World H → FileState → World H → Type 0
  HasTable w files w' = (w'.id ≡ w.id) × (w'.shared_files ≡ w.shared_files) × (w'.files ≡ files)

  pub HasTable-IsValid :
      (w w' : World H) (files : FileState)
      → HasTable w files w'
      → IsTable w.id w.shared_files files
      → IsValid w'
  HasTable-IsValid w w' files (i, s, f) table =
      subst (λ x. IsTable x w'.shared_files w'.files) (sym i)
        (subst (λ x. IsTable w.id x w'.files) (sym s)
          (subst (IsTable w.id w.shared_files) (sym f) table))

  -- The copy of a file is one that the VM may reach.
  switch_loop-IsTable :
      (name : Name) (id : ℕ) (shared : List (Name × HostPath)) (files : FileState)
      → (s s1 : H.State) (r : List ReopenedFile)
      → reopen_loop H name (local_file id name) files.open_files [] s ≡ done s1 r
      → IsTable id shared files
      → IsTable id shared (record files {
        open_files = (switch_loop H (local_file id name) r s1 files.open_files).1;
      })
  switch_loop-IsTable name id shared files s s1 r looped (entries, distinct, low) =
      let path = local_file id name in
      let P = IsEntry id shared files.next_descriptor in
      let R : Int32 → Int32 → OpenFile → Type 0 = λ d e g. e ≡ d → g.name ≡ name in
      let Q : Int32 → Type 0 = λ d. AllFiles (R d) files.open_files in
      let N : Int32 → OpenFile → Type 0 = λ d f. Q d → f.name ≡ name in
      let named =
        reopen_loop-AllKeys H name path Q files.open_files r s s1
          (AllFiles-same_name name files.open_files distinct) looped in
      let known =
        AllFiles-map (λ d f. Q d → R d d f) N (λ d f k q. k q refl) files.open_files
          (AllFiles-each R files.open_files) in
      (
        AllFiles-first P N _ (
            switch_loop-AllFiles H path Q (λ d f. P d f × N d f)
              (λ d fd f q ((low, below, (valid, flags, where_it_is)), k).
                ((low, below, (valid, flags, inl (refl, ap (local_file id) (sym (k q))))), k))
              r s1 files.open_files named (AllFiles-both P N files.open_files entries known)),
        switch_loop-IsDistinct H path r s1 files.open_files distinct,
        low,
      )

  IsReopened-IsValid :
      (name : Name) (w w' : World H)
      → IsSame H w w'
      → IsReopened H name (local_file w.id name) w w'
      → IsValid w
      → IsValid w'
  IsReopened-IsValid name w w' (i, sh, mem, size) (s, s1, r, looped, turned) v =
      HasTable-IsValid w w' _ (i, sh, turned)
        (switch_loop-IsTable name w.id w.shared_files w.files s s1 r looped v)

  copy_for_write-IsValid :
      (name : Name) (source : HostPath) (w : World H)
      → IsValid w
      → IsValid (copy_for_write H name source w).0
  copy_for_write-IsValid name source w v =
      let (same, table) = copy_for_write-cases H name source w in
      elim table [
        | inl (refused, kept) ↦
            HasTable-IsValid w (copy_for_write H name source w).0 w.files (same.0, same.1, kept) v
        | inr (copied, taken) ↦
            IsReopened-IsValid name w (copy_for_write H name source w).0 same taken v
      ]

  pub prepare_file_for_write-IsValid :
      (file : OpenFile) (w : World H) → IsValid w → IsValid (prepare_file_for_write H file w).0
  unfolding prepare_file_for_write
  prepare_file_for_write-IsValid file w v = elim (Bool-cases file.shared) [
    | inl shared ↦ ground (arith, copy_for_write-IsValid file.name file.host_path w v)
    | inr own ↦ HasTable-IsValid w (prepare_file_for_write H file w).0 w.files (ground arith) v
  ]
