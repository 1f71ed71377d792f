-- ===== src/Machine/TestKernel.antt =====
-- A small kernel for tests: descriptors and addresses are counted up, and one chosen call fails.
use kvm_hypervisor.Base.{ℕ, ◌+◌, refl, arith, true, [], ◌∷◌, ◌==◌, if◌then◌else◌}
use kvm_hypervisor.Base.Int.{ℤ, pos, negsuc}
use kvm_hypervisor.LongMode.{Sregs, data_segment}
use kvm_hypervisor.Machine.Kernel.{
  KernelInterface, IsKernel, Account, descriptor, mapping, acquire, release, map_failed,
  kvm_api_version,
}

pub record Counting : Type 0 where
  pub account : Account
  pub calls : ℕ
  pub fails : ℕ

abbrev grab : Counting → Counting × ℤ
grab s =
    let s1 = record s { calls = s.calls + 1 } in
    if s.calls == s.fails
    then (s1, negsuc 0)
    else (record s1 { account = acquire true (descriptor (pos s.calls)) s.account }, pos s.calls)

abbrev map_at : Counting → ℕ → Counting × ℕ
map_at s size =
    let s1 = record s { calls = s.calls + 1 } in
    if s.calls == s.fails
    then (s1, map_failed)
    else (record s1 { account = acquire true (mapping 0x10_0000 size) s.account }, 0x10_0000)

abbrev answer : Counting → ℕ → Counting × ℤ
answer s good =
    (record s { calls = s.calls + 1 }, if s.calls == s.fails then negsuc 0 else pos good)

abbrev zero_sregs : Sregs
zero_sregs = record {
  cs = data_segment;
  ds = data_segment;
  es = data_segment;
  fs = data_segment;
  gs = data_segment;
  ss = data_segment;
  cr0 = 0;
  cr3 = 0;
  cr4 = 0;
  efer = 0;
}

abbrev deliver : Counting → Counting × ℤ
deliver s = if s.calls == s.fails then (record s { calls = s.calls + 1 }, negsuc 0) else (
  record s {
    calls = s.calls + 1;
    account = record s.account { interrupts = s.account.interrupts + 1 };
  },
  pos 0,
)

abbrev pub test_kernel : KernelInterface
test_kernel = record {
  State = Counting;
  open_kvm = grab;
  get_api_version = λ s fd. answer s kvm_api_version;
  create_vm = λ s fd. grab s;
  mmap_memory = map_at;
  set_user_memory_region = λ s fd r. answer s 0;
  create_vcpu = λ s fd. grab s;
  get_vcpu_mmap_size = λ s fd. answer s 0x3000;
  mmap_run = λ s size fd. map_at s size;
  munmap = λ s p size. record s { account = release (mapping p size) s.account };
  close = λ s fd. record s { account = release (descriptor fd) s.account };
  get_sregs = λ s fd. let (s1, r) = answer s 0 in (s1, r, zero_sregs);
  set_sregs = λ s fd r. answer s 0;
  set_regs = λ s fd r. answer s 0;
  interrupt = λ s fd vector. deliver s;
}

abbrev pub account_of : Counting → Account
account_of s = s.account

pub test_kernel-IsKernel : IsKernel test_kernel account_of
test_kernel-IsKernel = record {
  open_kvm_lem = λ s. ground arith;
  get_api_version_lem = λ s fd. refl;
  create_vm_lem = λ s fd. ground arith;
  mmap_memory_lem = λ s size. ground arith;
  mmap_memory_not_null = λ s size. ground arith;
  set_user_memory_region_lem = λ s fd r. refl;
  create_vcpu_lem = λ s fd. ground arith;
  get_vcpu_mmap_size_lem = λ s fd. refl;
  mmap_run_lem = λ s size fd. ground arith;
  mmap_run_not_null = λ s size fd. ground arith;
  munmap_lem = λ s p size. refl;
  close_lem = λ s fd. refl;
  get_sregs_lem = λ s fd. refl;
  set_sregs_lem = λ s fd r. refl;
  set_regs_lem = λ s fd r. refl;
  interrupt_lem = λ s fd vector. ground arith;
}

-- A process that holds three descriptors, and in which the given call fails.
abbrev pub failing_at : ℕ → Counting
failing_at n = record {
  account = record {
    held = descriptor (pos 2) ∷ descriptor (pos 1) ∷ descriptor (pos 0) ∷ [];
    wrong = 0;
    interrupts = 0;
  };
  calls = 3;
  fails = n;
}
