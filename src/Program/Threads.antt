-- ===== src/Program/Threads.antt =====
-- host/src/main.cpp: the loop that starts the threads.
use kvm_hypervisor.Base.{
  ℕ, zero, suc, ◌+◌, ◌<◌, ◌≡◌, ◌∙◌, ◌↔◌, inl, inr, sym, subst, ap, arith, Bool, true, false,
  Bool-cases,
}
use kvm_hypervisor.SharedBuffer.{abort_shared_buffer}
use kvm_hypervisor.Program.{Created, Launch, is_zero, fail, start_threads}

-- The calls of `pthread_create` with the n numbers from i on succeed.
abbrev pub AllStarted : (ℕ → Created) → ℕ → ℕ → Type 0
AllStarted created i zero = Unit
AllStarted created i (suc n) = (is_zero (created i).result ≡ true) × AllStarted created (i + 1) n

abbrev one_started : Created → Launch → Launch
one_started created l = record l {
  started_threads = l.started_threads + 1;
  shared = created.shared;
}

start_threads-started :
    (created : ℕ → Created) (i n : ℕ) (l : Launch)
    → is_zero (created i).result ≡ true
    → start_threads created i (suc n) l
      ≡ start_threads created (i + 1) n (one_started (created i) l)
unfolding start_threads
start_threads-started created i n l e = ground arith

start_threads-failed :
    (created : ℕ → Created) (i n : ℕ) (l : Launch)
    → is_zero (created i).result ≡ false
    → start_threads created i (suc n) l ≡ fail (created i).shared l
unfolding start_threads
start_threads-failed created i n l e = ground arith

abbrev good_of : Launch → Bool
good_of l = l.all_guests_succeeded

pub start_threads_iff :
    (created : ℕ → Created) (i n : ℕ) (l : Launch)
    → l.all_guests_succeeded ≡ true
    → ((start_threads created i n l).all_guests_succeeded ≡ true) ↔ AllStarted created i n
unfolding start_threads
start_threads_iff created i zero l good = (λ e. tt, λ u. good)
start_threads_iff created i (suc n) l good =
    let (to, from) = start_threads_iff created (i + 1) n (one_started (created i) l) good in
    elim (Bool-cases (is_zero (created i).result)) [
      | inl e ↦
          let next = ap good_of (start_threads-started created i n l e) in
          (λ h. (e, to (sym next ∙ h)), λ (e1, rest). next ∙ from rest)
      | inr e ↦
          let next = ap good_of (start_threads-failed created i n l e) in
          (λ h. absurd (cc), λ (e1, rest). absurd (cc))
    ]

pub start_threads-count :
    (created : ℕ → Created) (i n : ℕ) (l : Launch)
    → AllStarted created i n
    → (start_threads created i n l).started_threads ≡ l.started_threads + n
unfolding start_threads
start_threads-count created i zero l all = omega arith
start_threads-count created i (suc n) l (e, all) = omega (
  arith,
  ap (λ (x : Launch). x.started_threads) (start_threads-started created i n l e),
  start_threads-count created (i + 1) n (one_started (created i) l) all,
)

-- How the loop stands that has met a call that fails.
abbrev pub IsStopped : (ℕ → Created) → ℕ → ℕ → ℕ → Launch → Type 0
IsStopped created i n before l =
    (k : ℕ) × (k < n)
    × AllStarted created i k
    × (is_zero (created (i + k)).result ≡ false)
    × (l.started_threads ≡ before + k)
    × (l.shared ≡ record (created (i + k)).shared { stopped = true })

IsStopped-started :
    (created : ℕ → Created) (i n before : ℕ) (l : Launch)
    → is_zero (created i).result ≡ true
    → IsStopped created (i + 1) n (before + 1) l
    → IsStopped created i (suc n) before l
IsStopped-started created i n before l e (k, below, all, bad, count, stopped) =
    let at : (i + 1) + k ≡ i + (k + 1) = omega arith in
    let one_more : suc k ≡ k + 1 = omega arith in
    (
      k + 1,
      omega arith,
      subst (AllStarted created i) one_more (e, all),
      subst (λ j. is_zero (created j).result ≡ false) at bad,
      omega arith,
      subst (λ j. l.shared ≡ record (created j).shared { stopped = true }) at stopped,
    )

-- When a thread cannot be made, exactly the threads before it are started, and the shared buffer as it
-- stood at that call is left with its flag `stopped` set and else unchanged.
pub start_threads-IsStopped :
    (created : ℕ → Created) (i n : ℕ) (l : Launch)
    → l.all_guests_succeeded ≡ true
    → (start_threads created i n l).all_guests_succeeded ≡ false
    → IsStopped created i n l.started_threads (start_threads created i n l)
unfolding start_threads abort_shared_buffer
start_threads-IsStopped created i zero l good bad = absurd (cc)
start_threads-IsStopped created i (suc n) l good bad =
    elim (Bool-cases (is_zero (created i).result)) [
      | inl e ↦
          let next = start_threads-started created i n l e in
          subst (IsStopped created i (suc n) l.started_threads) (sym next) (
            IsStopped-started created i n l.started_threads
              (start_threads created (i + 1) n (one_started (created i) l)) e
              (start_threads-IsStopped created (i + 1) n (one_started (created i) l) good
                (sym (ap good_of next) ∙ bad)))
      | inr e ↦
          let at : i ≡ i + 0 = omega arith in
          subst (IsStopped created i (suc n) l.started_threads)
            (sym (start_threads-failed created i n l e))
            (
              0,
              omega arith,
              tt,
              subst (λ j. is_zero (created j).result ≡ false) at e,
              omega arith,
              ap (λ j. record (created j).shared { stopped = true }) at,
            )
    ]
