-- ===== src/Machine/Kernel.antt =====
-- What host/src/vm.c and host/src/vm_runner.cpp use of the kernel to hold a virtual machine: the
-- system calls on /dev/kvm and the memory mappings, over a state that the program cannot see. They
-- are parameters of the model. Results are as the calls give them, a negative `int` on failure.
use kvm_hypervisor.Base.{
  ℕ, ◌+◌, ◌-◌, ◌^◌, ◌≡◌, ◌≢◌, Bool, true, false, not, ◌&&◌, List, [], ◌∷◌, ◌==◌, if◌then◌else◌,
}
use kvm_hypervisor.Base.Int.{ℤ, pos, negsuc, is_neg}
use kvm_hypervisor.LongMode.{Sregs}

-- `(void *) -1`.
abbrev pub map_failed : ℕ
map_failed = 2 ^ 64 - 1

-- KVM_API_VERSION of `linux/kvm.h`.
abbrev pub kvm_api_version : ℕ
kvm_api_version = 12

-- `struct kvm_userspace_memory_region`.
pub record Region : Type 0 where
  pub slot : ℕ
  pub flags : ℕ
  pub guest_phys_addr : ℕ
  pub memory_size : ℕ
  pub userspace_addr : ℕ

-- The fields of `struct kvm_regs` that the code sets; all others are 0.
pub record Regs : Type 0 where
  pub rflags : ℕ
  pub rip : ℕ
  pub rsp : ℕ

pub record KernelInterface : Type 1 where
  pub State : Type 0
  pub open_kvm : State → State × ℤ
  pub get_api_version : State → ℤ → State × ℤ
  pub create_vm : State → ℤ → State × ℤ
  pub mmap_memory : State → ℕ → State × ℕ
  pub set_user_memory_region : State → ℤ → Region → State × ℤ
  pub create_vcpu : State → ℤ → State × ℤ
  pub get_vcpu_mmap_size : State → ℤ → State × ℤ
  pub mmap_run : State → ℕ → ℤ → State × ℕ
  pub munmap : State → ℕ → ℕ → State
  pub close : State → ℤ → State
  pub get_sregs : State → ℤ → State × ℤ × Sregs
  pub set_sregs : State → ℤ → Sregs → State × ℤ
  pub set_regs : State → ℤ → Regs → State × ℤ
  pub interrupt : State → ℤ → ℕ → State × ℤ

-- What a process holds: a file descriptor, or a mapping by its address and size.
pub data Handle : Type 0 where
  descriptor : ℤ → Handle
  mapping : ℕ → ℕ → Handle

abbrev pub same_int : ℤ → ℤ → Bool
same_int (pos a) (pos b) = a == b
same_int (negsuc a) (negsuc b) = a == b
same_int (pos a) (negsuc b) = false
same_int (negsuc a) (pos b) = false

abbrev pub same_handle : Handle → Handle → Bool
same_handle (descriptor a) (descriptor b) = same_int a b
same_handle (mapping p m) (mapping q n) = (p == q) && (m == n)
same_handle (descriptor a) (mapping q n) = false
same_handle (mapping p m) (descriptor b) = false

-- The account of a process: what it holds, the newest first, how often it gave back what it did not
-- hold, and how many interrupts its virtual machine took.
pub record Account : Type 0 where
  pub held : List Handle
  pub wrong : ℕ
  pub interrupts : ℕ

abbrev pub holds : Handle → List Handle → Bool
holds h [] = false
holds h (k ∷ ks) = if same_handle k h then true else holds h ks

abbrev pub without : Handle → List Handle → List Handle
without h [] = []
without h (k ∷ ks) = if same_handle k h then ks else k ∷ without h ks

abbrev pub acquire : Bool → Handle → Account → Account
acquire good h a = if good then record a { held = h ∷ a.held } else a

abbrev pub release : Handle → Account → Account
release h a =
    if holds h a.held
    then record a { held = without h a.held }
    else record a { wrong = a.wrong + 1 }

-- The documented effect of each call on the account.
pub record IsKernel (K : KernelInterface) (account : K.State → Account) : Type 0 where
  pub open_kvm_lem :
      (s : K.State)
      → account (K.open_kvm s).0
        ≡ acquire (not (is_neg (K.open_kvm s).1)) (descriptor (K.open_kvm s).1) (account s)
  pub get_api_version_lem : (s : K.State) (fd : ℤ) → account (K.get_api_version s fd).0 ≡ account s
  pub create_vm_lem :
      (s : K.State) (fd : ℤ)
      → account (K.create_vm s fd).0
        ≡ acquire (not (is_neg (K.create_vm s fd).1)) (descriptor (K.create_vm s fd).1) (account s)
  pub mmap_memory_lem :
      (s : K.State) (size : ℕ)
      → account (K.mmap_memory s size).0
        ≡ acquire
            (not ((K.mmap_memory s size).1 == map_failed))
            (mapping (K.mmap_memory s size).1 size)
            (account s)
  pub mmap_memory_not_null : (s : K.State) (size : ℕ) → (K.mmap_memory s size).1 ≢ 0
  pub set_user_memory_region_lem :
      (s : K.State) (fd : ℤ) (r : Region) → account (K.set_user_memory_region s fd r).0 ≡ account s
  pub create_vcpu_lem :
      (s : K.State) (fd : ℤ)
      → account (K.create_vcpu s fd).0
        ≡ acquire
            (not (is_neg (K.create_vcpu s fd).1))
            (descriptor (K.create_vcpu s fd).1)
            (account s)
  pub get_vcpu_mmap_size_lem :
      (s : K.State) (fd : ℤ) → account (K.get_vcpu_mmap_size s fd).0 ≡ account s
  pub mmap_run_lem :
      (s : K.State) (size : ℕ) (fd : ℤ)
      → account (K.mmap_run s size fd).0
        ≡ acquire
            (not ((K.mmap_run s size fd).1 == map_failed))
            (mapping (K.mmap_run s size fd).1 size)
            (account s)
  pub mmap_run_not_null : (s : K.State) (size : ℕ) (fd : ℤ) → (K.mmap_run s size fd).1 ≢ 0
  pub munmap_lem :
      (s : K.State) (p size : ℕ)
      → account (K.munmap s p size) ≡ release (mapping p size) (account s)
  pub close_lem :
      (s : K.State) (fd : ℤ) → account (K.close s fd) ≡ release (descriptor fd) (account s)
  pub get_sregs_lem : (s : K.State) (fd : ℤ) → account (K.get_sregs s fd).0 ≡ account s
  pub set_sregs_lem :
      (s : K.State) (fd : ℤ) (r : Sregs) → account (K.set_sregs s fd r).0 ≡ account s
  pub set_regs_lem : (s : K.State) (fd : ℤ) (r : Regs) → account (K.set_regs s fd r).0 ≡ account s
  pub interrupt_lem :
      (s : K.State) (fd : ℤ) (vector : ℕ)
      → account (K.interrupt s fd vector).0 ≡ (
          if is_neg (K.interrupt s fd vector).1
          then account s
          else record (account s) { interrupts = (account s).interrupts + 1 })
