-- ===== src/Program/Status.antt =====
-- host/src/main.cpp: when the program exits with success, and what a thread that cannot be made does.
use kvm_hypervisor.Base.{
  ℕ, zero, suc, ◌+◌, ◌≡◌, ◌∙◌, ◌⊎◌, ◌↔◌, inl, inr, refl, sym, subst, ap, arith, true, false,
  Bool-cases, Option, [], length,
}
use kvm_hypervisor.Cli.{CliResult, CliStatus, Config, ok, help, error}
use kvm_hypervisor.Program.{
  Paths, Files, Created, Joined, Launch, is_zero, start_threads, join_thread, join_threads,
  prepared, launch, ExitStatus, exit_success, run_config, main, configure_shared_files,
}
use kvm_hypervisor.Program.Shareable.{IsShareable, configure_shared_files_iff}
use kvm_hypervisor.Program.Threads.{AllStarted, start_threads_iff, start_threads-count}

-- The threads with these numbers are joined, and their guests have completed.
abbrev pub AllCompleted : (ℕ → Joined) → ℕ → ℕ → Type 0
AllCompleted joined i zero = Unit
AllCompleted joined i (suc n) =
    (is_zero (joined i).result ≡ true)
    × ((joined i).completed_successfully ≡ true)
    × AllCompleted joined (i + 1) n

join_threads-failed :
    (joined : ℕ → Joined) (i n : ℕ) (l : Launch)
    → l.all_guests_succeeded ≡ false
    → (join_threads joined i n l).all_guests_succeeded ≡ false
unfolding join_threads
join_threads-failed joined i zero l bad = bad
join_threads-failed joined i (suc n) l bad =
    join_threads-failed joined (i + 1) n (join_thread (joined i) l) (ground arith)

join_threads_iff :
    (joined : ℕ → Joined) (i n : ℕ) (l : Launch)
    → l.all_guests_succeeded ≡ true
    → ((join_threads joined i n l).all_guests_succeeded ≡ true) ↔ AllCompleted joined i n
unfolding join_threads
join_threads_iff joined i zero l good = (λ e. tt, λ u. good)
join_threads_iff joined i (suc n) l good =
    let l1 = join_thread (joined i) l in
    elim (Bool-cases l1.all_guests_succeeded) [
      | inl e ↦
          let (to, from) = join_threads_iff joined (i + 1) n l1 e in
          (λ h. (ground arith, ground arith, to h), λ (e1, e2, rest). from rest)
      | inr e ↦
          let bad = join_threads-failed joined (i + 1) n l1 e in
          (λ h. absurd (cc), λ (e1, e2, rest). absurd (ground arith))
    ]

launch_iff :
    (created : ℕ → Created) (joined : ℕ → Joined) (config : Config) (files : Files)
    → ((launch created joined config files).all_guests_succeeded ≡ true) ↔ (
        AllStarted created 0 (length config.guest_images)
        × AllCompleted joined 0 (length config.guest_images))
unfolding launch
launch_iff created joined config files =
    let n = length config.guest_images in
    let l = start_threads created 0 n (prepared config files) in
    let (to, from) = start_threads_iff created 0 n (prepared config files) refl in
    elim (Bool-cases l.all_guests_succeeded) [
      | inl e ↦
          let all = to e in
          let count : l.started_threads ≡ n =
            omega (arith, start_threads-count created 0 n (prepared config files) all) in
          let (to1, from1) = join_threads_iff joined 0 l.started_threads l e in
          (
            λ h. (all, subst (AllCompleted joined 0) count (to1 h)),
            λ (all1, done). from1 (subst (AllCompleted joined 0) (sym count) done),
          )
      | inr e ↦
          let bad = join_threads-failed joined 0 l.started_threads l e in
          (λ h. absurd (cc), λ (all1, done). absurd (let good = from all1 in cc))
    ]

run_config_iff :
    (P : Paths) (created : ℕ → Created) (joined : ℕ → Joined) (config : Config)
    → ((run_config P created joined config).0 ≡ exit_success) ↔ (
        ((configure_shared_files P config.shared_files []).0 ≡ true)
        × ((launch created joined config
              (configure_shared_files P config.shared_files []).1).all_guests_succeeded
            ≡ true))
unfolding run_config
run_config_iff P created joined config =
    (λ h. (ground arith, ground arith), λ (e, e1). ground arith)

-- The program exits with success exactly when help was asked for, or when the command line is
-- accepted, the shared files can be shared, and each guest's thread is made and joined with its guest
-- completed.
pub main_iff :
    (P : Paths) (created : ℕ → Created) (joined : ℕ → Joined) (cli : CliResult)
    → let n = length cli.config.guest_images in
      ((main P created joined cli).0 ≡ exit_success) ↔ (
        (cli.status ≡ help)
        ⊎ ((cli.status ≡ ok)
            × IsShareable P cli.config.shared_files
            × AllStarted created 0 n
            × AllCompleted joined 0 n))
unfolding main
main_iff P created joined cli = go cli.status refl
  where
    go :
        (status : CliStatus)
        → cli.status ≡ status
        → let n = length cli.config.guest_images in
          ((main P created joined cli).0 ≡ exit_success) ↔ (
            (cli.status ≡ help)
            ⊎ ((cli.status ≡ ok)
                × IsShareable P cli.config.shared_files
                × AllStarted created 0 n
                × AllCompleted joined 0 n))
    go help e = (λ h. inl e, λ u. ground arith)
    go error e = (λ h. absurd (ground arith), λ u. absurd (ground arith))
    go ok e =
        let config = cli.config in
        let main_ok : main P created joined cli ≡ run_config P created joined config =
          ground arith in
        let (to, from) = run_config_iff P created joined config in
        let (share, unshare) = configure_shared_files_iff P config.shared_files in
        let (up, down) =
          launch_iff created joined config (configure_shared_files P config.shared_files []).1 in
        (
          λ h.
              let (well, good) =
                to (sym (ap (λ (r : ExitStatus × Option Launch). r.0) main_ok) ∙ h) in
              let (all, done) = up good in inr (e, share well, all, done),
          λ u. elim u [
            | inl asked ↦ absurd (cc)
            | inr (fine, shareable, all, done) ↦
                ap (λ (r : ExitStatus × Option Launch). r.0) main_ok
                ∙ from (unshare shareable, down (all, done))
          ],
        )
