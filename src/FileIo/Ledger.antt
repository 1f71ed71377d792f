-- ===== src/FileIo/Ledger.antt =====
-- host/src/file_io.cpp: the host descriptors that the process holds, under the loops of
-- `reopenSharedFiles` and `closeGuestFiles`. They are a bag: the host gives and takes them in an
-- order of its own.
pub mod Loops
pub mod Copies
pub mod Requests
pub mod Exits
use kvm_hypervisor.Base.{
  ℕ, ◌+◌, ◌≡◌, ◌⊎◌, inl, inr, refl, sym, subst, ap, ◌∙◌, arith, none, some, true, false, not, ◌||◌,
  Option-cases, Bool-cases, List, [], ◌∷◌, ◌++◌, ltb, ◌==◌, if◌then◌else◌,
}
use kvm_hypervisor.Base.Family.{bit}
use kvm_hypervisor.Base.Bag.{Bag, units, put, take_out, ext, units-put, units-take_out}
use kvm_hypervisor.Base.Int.{Int32, ℤ, pos}
use kvm_hypervisor.FileIo.Host.{
  Name, HostPath, HostFlags, Host, Reply, failed, done, Reply-cases, Whence, seek_cur, seek_set,
}
use kvm_hypervisor.FileIo.Flags.{to_host_open_flags}
use kvm_hypervisor.FileIo.State.{OpenFile, OpenFiles, find, update, erase, same_name}
use kvm_hypervisor.FileIo.Private.{
  ReopenedFile, reopen_file, reopen_loop, switch_loop, switched, closed, close_reopened_files,
}

-- The open descriptors of the process, and how often it closed what was not open.
pub record HostAccount : Type 0 where
  pub held : Bag
  pub wrong : ℕ

abbrev pub opened : ℕ → HostAccount → HostAccount
opened fd a = record a { held = put fd a.held }

abbrev pub given_back : ℕ → HostAccount → HostAccount
given_back fd a =
    if ltb 0 (units fd a.held)
    then record a { held = take_out fd a.held }
    else record a { wrong = a.wrong + 1 }

abbrev pub state_of : {S A : Type 0} → Reply S A → S
state_of (failed s) = s
state_of (done s a) = s

-- The documented effect of each call on the account: `open` gives a descriptor where it succeeds,
-- `close` releases its descriptor on Linux even where it reports an error, and no other call opens or
-- closes one.
pub record IsHost (H : Host) (account : H.State → HostAccount) : Type 0 where
  pub open_file_done :
      (s s' : H.State) (path : HostPath) (flags : HostFlags) (fd : ℕ)
      → H.open_file s path flags ≡ done s' fd
      → account s' ≡ opened fd (account s)
  pub open_file_failed :
      (s s' : H.State) (path : HostPath) (flags : HostFlags)
      → H.open_file s path flags ≡ failed s'
      → account s' ≡ account s
  pub close_lem :
      (s : H.State) (fd : ℕ) → account (closed H (H.close s fd)) ≡ given_back fd (account s)
  pub create_directories_lem :
      (s : H.State) (path : HostPath) → account (state_of (H.create_directories s path)) ≡ account s
  pub copy_file_lem :
      (s : H.State) (from to : HostPath) → account (state_of (H.copy_file s from to)) ≡ account s
  pub add_owner_write_lem :
      (s : H.State) (path : HostPath) → account (state_of (H.add_owner_write s path)) ≡ account s
  pub remove_lem : (s : H.State) (path : HostPath) → account (H.remove s path) ≡ account s
  pub read_lem : (s : H.State) (fd count : ℕ) → account (state_of (H.read s fd count)) ≡ account s
  pub write_lem :
      (s : H.State) (fd : ℕ) (bytes : List ℕ) → account (state_of (H.write s fd bytes)) ≡ account s
  pub lseek_lem :
      (s : H.State) (fd : ℕ) (offset : ℤ) (whence : Whence)
      → account (state_of (H.lseek s fd offset whence)) ≡ account s

-- Of the account, this many of each descriptor are held beyond what was held at first.
abbrev pub Owes : HostAccount → (ℕ → ℕ) → HostAccount → Type 0
Owes base extra a =
    (a.wrong ≡ base.wrong) × ((n : ℕ) → units n a.held ≡ units n base.held + extra n)

pub Owes-opened :
    (base a : HostAccount) (extra : ℕ → ℕ) (fd : ℕ)
    → Owes base extra a
    → Owes base (λ n. bit (fd == n) + extra n) (opened fd a)
Owes-opened base a extra fd (w, h) = (w, λ n. omega (arith, h n, units-put fd n a.held))

pub Owes-given_back :
    (base a : HostAccount) (extra : ℕ → ℕ) (fd : ℕ)
    → Owes base (λ n. bit (fd == n) + extra n) a
    → Owes base extra (given_back fd a)
Owes-given_back base a extra fd (w, h) =
    let some_held : ltb 0 (units fd a.held) ≡ true = ground (arith, h fd) in
    rw some_held (w, λ n. omega (arith, h n, units-take_out fd n a.held))

pub Owes-congr :
    (base a : HostAccount) (extra extra' : ℕ → ℕ)
    → ((n : ℕ) → extra n ≡ extra' n)
    → Owes base extra a
    → Owes base extra' a
Owes-congr base a extra extra' e (w, h) = (w, λ n. omega (arith, h n, e n))

-- When nothing is owed, the account is the one at first.
pub Owes-none : (base a : HostAccount) → Owes base (λ n. 0) a → a ≡ base
Owes-none base a (w, h) =
    let same : a.held ≡ base.held = ext a.held base.held (λ n. omega (arith, h n)) in cc

module _ (H : Host) (account : H.State → HostAccount) (L : IsHost H account)
    (base : HostAccount) where
  pub Owes-same :
      (s s' : H.State) (extra : ℕ → ℕ)
      → account s' ≡ account s
      → Owes base extra (account s)
      → Owes base extra (account s')
  Owes-same s s' extra e h = subst (Owes base extra) (sym e) h

  pub Owes-close :
      (s : H.State) (fd : ℕ) (extra : ℕ → ℕ)
      → Owes base (λ n. bit (fd == n) + extra n) (account s)
      → Owes base extra (account (closed H (H.close s fd)))
  Owes-close s fd extra h =
      subst (Owes base extra) (sym (L.close_lem s fd)) (Owes-given_back base (account s) extra fd h)

  -- A call that keeps the account, as its reply says.
  pub Owes-reply :
      {A : Type 0}
      → (r : Reply H.State A) (s s' : H.State) (extra : ℕ → ℕ) → state_of r ≡ s'
      → account (state_of r) ≡ account s
      → Owes base extra (account s)
      → Owes base extra (account s')
  Owes-reply r s s' extra e kept h =
      subst (λ x. Owes base extra (account x)) e (Owes-same s (state_of r) extra kept h)
