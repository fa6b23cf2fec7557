-- ===== src/Kernel/Sleep/Progress.antt =====
-- kernel/sched.c: from a call of wake_up to the sleepers of the queue.
use linux.Prelude.{ℕ, ◌≡◌, ◌≢◌, refl, ◌∙◌, ◌⊎◌, inl, inr, Option, some, true, arith, ℕ_discrete}
use linux.Kernel.Task.{is_running}
use linux.Kernel.Sleep.{Queue, resume, wake_up, empty, Reach}
use linux.Kernel.Sleep.Liveness.{WillWake, from_head, from_runnable, from_sleeper, Reach-IsLive}

frame-discrete : Discrete (Option (Option ℕ))
frame-discrete = hlevel ℕ_discrete

-- Steps in which nobody goes to sleep.
pub data Drain (q : Queue) : Queue → Type 0 where
  stop : Drain q q
  then_wake : {r : Queue} → Drain q r → Drain q (wake_up r)
  then_resume :
      (i : ℕ) (tmp : Option ℕ) {r : Queue}
      → Drain q r
      → is_running (r.state i) ≡ true
      → r.frame i ≡ some tmp
      → Drain q (resume i tmp r)

-- The steps from `q` make the task runnable before it resumes. Those that resumed before that
-- were runnable at some point too.
data Wakes (q : Queue) : ℕ → Type 0 where
  woken :
      {i : ℕ} (r : Queue)
      → Drain q r
      → is_running (r.state i) ≡ true
      → r.frame i ≡ q.frame i
      → ((x : ℕ) → r.frame x ≢ q.frame x → Wakes q x)
      → Wakes q i

-- The waker has run as far as `schedule`; now it resumes.
by_waker : (q : Queue) (i j : ℕ) → q.frame j ≡ some (some i) → Wakes q j → Wakes q i
by_waker q i j f (woken r go run same rest) = elim (ℕ_discrete j i) [
  | yes e ↦ woken {i = i} r go (ground arith) (ground arith) rest
  | no ne ↦ elim (frame-discrete (r.frame i) (q.frame i)) [
    | no changed ↦ rest i changed
    | yes kept ↦
        woken {i = i} (resume j (some i) r) (then_resume j (some i) go run (same ∙ f))
          (unfold resume in ground arith) (unfold resume in ground arith) others
  ]
]
  where
    others : (x : ℕ) → (resume j (some i) r).frame x ≢ q.frame x → Wakes q x
    others x h = elim (ℕ_discrete j x) [
      | yes e ↦ woken {i = x} r go (ground arith) (ground arith) rest
      | no ne ↦ rest x (λ k. h (unfold resume in ground arith))
    ]

WillWake-Wakes : {q : Queue} {i : ℕ} → WillWake q i → Wakes q i
WillWake-Wakes {q} {i} (from_head h) =
    woken {i = i} (wake_up q) (then_wake stop) (unfold wake_up in ground arith)
      (unfold wake_up in refl) (λ x n. absurd (n (unfold wake_up in refl)))
WillWake-Wakes {q} {i} (from_runnable j f y) =
    by_waker q i j f (woken q stop y refl (λ x n. absurd (n refl)))
WillWake-Wakes {q} {i} (from_sleeper j f w) = by_waker q i j f (WillWake-Wakes w)

-- From every state that tasks can reach by `sleep_on` and `wake_up`, calls of `wake_up` and the
-- ends of `sleep_on` of runnable tasks are enough to make a task that is inside `sleep_on`
-- runnable, before it has resumed.
pub sleeper_wakes :
    {q : Queue} (i : ℕ) (tmp : Option ℕ)
    → Reach empty q
    → q.frame i ≡ some tmp
    → (r : Queue) × Drain q r × (is_running (r.state i) ≡ true) × (r.frame i ≡ q.frame i)
sleeper_wakes {q} i tmp reached f = go (Reach-IsLive reached i tmp f)
  where
    end :
        Wakes q i
        → (r : Queue) × Drain q r × (is_running (r.state i) ≡ true) × (r.frame i ≡ q.frame i)
    end (woken r steps run same rest) = (r, steps, run, same)

    go :
        (is_running (q.state i) ≡ true) ⊎ WillWake q i
        → (r : Queue) × Drain q r × (is_running (r.state i) ≡ true) × (r.frame i ≡ q.frame i)
    go (inl y) = (q, stop, y, refl)
    go (inr w) = end (WillWake-Wakes w)
