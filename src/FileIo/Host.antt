-- ===== src/FileIo/Host.antt =====
-- What host/src/file_io.cpp uses of the host: the POSIX calls and `std::filesystem`, over a state of
-- the host that the program cannot see. They are parameters of the model.
use kvm_hypervisor.Base.{ℕ, ◌≤◌, ◌≡◌, ◌⊎◌, inl, inr, refl, Bool, List, length}
use kvm_hypervisor.Base.Int.{ℤ}

-- A name as the bytes of a `std::string`.
abbrev pub Name : Type 0
Name = List ℕ

-- `vm_files/vm_<id>/<name>`, its directory, and the path of a file that the user shares.
pub data HostPath : Type 0 where
  local_file : ℕ → Name → HostPath
  local_directory : ℕ → HostPath
  configured : List ℕ → HostPath

-- O_RDONLY, O_WRONLY and O_RDWR.
pub data AccessMode : Type 0 where
  rdonly wronly rdwr : AccessMode

pub record HostFlags : Type 0 where
  pub access : AccessMode
  pub creat : Bool

pub data Whence : Type 0 where
  seek_set seek_cur seek_end : Whence

-- How a call of the host ends, with the state that it leaves.
pub data Reply (S : Type 0) (A : Type 0) : Type 0 where
  failed : S → Reply S A
  done : S → A → Reply S A

pub record Host : Type 1 where
  pub State : Type 0
  pub exists : State → HostPath → Bool
  pub create_directories : State → HostPath → Reply State (Unit {0})
  pub copy_file : State → HostPath → HostPath → Reply State (Unit {0})
  pub add_owner_write : State → HostPath → Reply State (Unit {0})
  pub remove : State → HostPath → State
  pub open_file : State → HostPath → HostFlags → Reply State ℕ
  pub close : State → ℕ → Reply State (Unit {0})
  pub read : State → ℕ → ℕ → Reply State (List ℕ)
  pub write : State → ℕ → List ℕ → Reply State ℕ
  pub lseek : State → ℕ → ℤ → Whence → Reply State ℕ

-- `read` and `write` transfer no more than they were asked to.
pub record IsPosix (H : Host) : Type 0 where
  pub read_short :
      (s s' : H.State) (fd count : ℕ) (bytes : List ℕ)
      → H.read s fd count ≡ done s' bytes
      → length bytes ≤ count
  pub write_short :
      (s s' : H.State) (fd : ℕ) (bytes : List ℕ) (n : ℕ)
      → H.write s fd bytes ≡ done s' n
      → n ≤ length bytes

pub Reply-cases :
    {S A : Type 0}
    → (r : Reply S A) → ((s : S) × (r ≡ failed s)) ⊎ ((s : S) × (a : A) × (r ≡ done s a))
Reply-cases (failed s) = inl (s, refl)
Reply-cases (done s a) = inr (s, a, refl)
