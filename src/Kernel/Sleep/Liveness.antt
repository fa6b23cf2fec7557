-- ===== src/Kernel/Sleep/Liveness.antt =====
-- kernel/sched.c: the chain of the sleepers on a queue.
use linux.Prelude.{ℕ, ◌≡◌, ◌≢◌, ◌⊎◌, inl, inr, Option, none, some, true, arith, ℕ_discrete, ok}
use linux.Kernel.Task.{TaskState, is_running}
use linux.Kernel.Sleep.{
  Queue, sleep_on, resume, wake_up, rouse, empty, Step, sleeps, resumes, wakes, Reach, here, later,
}

-- A chain of frames leads from the head of the queue, or from a runnable task that has yet to
-- resume, to the task.
pub data WillWake (q : Queue) : ℕ → Type 0 where
  from_head : {i : ℕ} → q.head ≡ some i → WillWake q i
  from_runnable :
      {i : ℕ} (j : ℕ) → q.frame j ≡ some (some i) → is_running (q.state j) ≡ true → WillWake q i
  from_sleeper : {i : ℕ} (j : ℕ) → q.frame j ≡ some (some i) → WillWake q j → WillWake q i

-- Every task that is in `sleep_on` is runnable, or will be woken.
abbrev pub IsLive : Queue → Type 0
IsLive q =
    (i : ℕ) (tmp : Option ℕ) → q.frame i ≡ some tmp → (is_running (q.state i) ≡ true) ⊎ WillWake q i

sleep_on-WillWake :
    (i : ℕ) (q r : Queue)
    → q.frame i ≡ none
    → sleep_on i q ≡ ok r
    → (k : ℕ) → WillWake q k
    → WillWake r k
unfolding sleep_on
sleep_on-WillWake i q r none_i e k (from_head h) =
    from_sleeper i (ground arith) (from_head (ground arith))
sleep_on-WillWake i q r none_i e k (from_runnable j f y) =
    from_runnable j (ground arith) (ground arith)
sleep_on-WillWake i q r none_i e k (from_sleeper j f w) =
    from_sleeper j (ground arith) (sleep_on-WillWake i q r none_i e j w)

sleep_on-IsLive :
    (i : ℕ) (q r : Queue) → q.frame i ≡ none → sleep_on i q ≡ ok r → IsLive q → IsLive r
unfolding sleep_on
sleep_on-IsLive i q r none_i e live k tmp f = elim (ℕ_discrete i k) [
  | yes same ↦ inr (from_head (ground arith))
  | no ne ↦ old ne (live k tmp (ground arith))
]
  where
    old :
        i ≢ k
        → (is_running (q.state k) ≡ true) ⊎ WillWake q k
        → (is_running (r.state k) ≡ true) ⊎ WillWake r k
    old ne (inl y) = inl (ground arith)
    old ne (inr w) = inr (sleep_on-WillWake i q r none_i e k w)

passed :
    (i : ℕ) (tmp : Option ℕ) (q : Queue)
    → q.frame i ≡ some tmp
    → (k j : ℕ) → q.frame j ≡ some (some k)
    → (is_running ((resume i tmp q).state j) ≡ true) ⊎ WillWake (resume i tmp q) j
    → (is_running ((resume i tmp q).state k) ≡ true) ⊎ WillWake (resume i tmp q) k
unfolding resume
passed i tmp q f k j g h = elim (ℕ_discrete i j) [
  | yes same ↦ inl (ground arith)
  | no ne ↦ by_frame (ground arith) h
]
  where
    by_frame :
        (resume i tmp q).frame j ≡ some (some k)
        → (is_running ((resume i tmp q).state j) ≡ true) ⊎ WillWake (resume i tmp q) j
        → (is_running ((resume i tmp q).state k) ≡ true) ⊎ WillWake (resume i tmp q) k
    by_frame g' (inl y) = inr (from_runnable j g' y)
    by_frame g' (inr w) = inr (from_sleeper j g' w)

-- Running a task's waker wakes it, or leaves it a waker.
resume-WillWake :
    (i : ℕ) (tmp : Option ℕ) (q : Queue)
    → q.frame i ≡ some tmp
    → (k : ℕ) → WillWake q k
    → (is_running ((resume i tmp q).state k) ≡ true) ⊎ WillWake (resume i tmp q) k
unfolding resume
resume-WillWake i tmp q f k (from_head h) = inr (from_head h)
resume-WillWake i tmp q f k (from_runnable j g y) = passed i tmp q f k j g (inl (roused tmp y))
  where
    roused : (o : Option ℕ) → is_running (q.state j) ≡ true → is_running (rouse o q.state j) ≡ true
    roused none h = h
    roused (some m) h = ground arith
resume-WillWake i tmp q f k (from_sleeper j g w) =
    passed i tmp q f k j g (resume-WillWake i tmp q f j w)

rouse-running :
    (o : Option ℕ) (st : ℕ → TaskState) (k : ℕ)
    → is_running (st k) ≡ true
    → is_running (rouse o st k) ≡ true
rouse-running none st k h = h
rouse-running (some m) st k h = ground arith

resume-IsLive :
    (i : ℕ) (tmp : Option ℕ) (q : Queue) → q.frame i ≡ some tmp → IsLive q → IsLive (resume i tmp q)
resume-IsLive i tmp q f live k tmp' g = go (live k tmp' (unfold resume in ground arith))
  where
    go :
        (is_running (q.state k) ≡ true) ⊎ WillWake q k
        → (is_running ((resume i tmp q).state k) ≡ true) ⊎ WillWake (resume i tmp q) k
    go (inl y) = inl (unfold resume in rouse-running tmp q.state k y)
    go (inr w) = resume-WillWake i tmp q f k w

wake_up-WillWake :
    (q : Queue) (k : ℕ)
    → WillWake q k
    → (is_running ((wake_up q).state k) ≡ true) ⊎ WillWake (wake_up q) k
unfolding wake_up
wake_up-WillWake q k (from_head h) = inl (ground arith)
wake_up-WillWake q k (from_runnable j g y) =
    inr (from_runnable j g (rouse-running q.head q.state j y))
wake_up-WillWake q k (from_sleeper j g w) = go (wake_up-WillWake q j w)
  where
    go :
        (is_running ((wake_up q).state j) ≡ true) ⊎ WillWake (wake_up q) j
        → (is_running ((wake_up q).state k) ≡ true) ⊎ WillWake (wake_up q) k
    go (inl y) = inr (from_runnable j g y)
    go (inr w') = inr (from_sleeper j g w')

wake_up-IsLive : (q : Queue) → IsLive q → IsLive (wake_up q)
unfolding wake_up
wake_up-IsLive q live k tmp g = go (live k tmp g)
  where
    go :
        (is_running (q.state k) ≡ true) ⊎ WillWake q k
        → (is_running ((wake_up q).state k) ≡ true) ⊎ WillWake (wake_up q) k
    go (inl y) = inl (rouse-running q.head q.state k y)
    go (inr w) = wake_up-WillWake q k w

Step-IsLive : {q r : Queue} → Step q r → IsLive q → IsLive r
Step-IsLive {q} {r} (sleeps i y n e) live = sleep_on-IsLive i q r n e live
Step-IsLive {q} (resumes i tmp y f) live = resume-IsLive i tmp q f live
Step-IsLive {q} wakes live = wake_up-IsLive q live

-- In every state that tasks can reach by `sleep_on` and `wake_up`, in any interleaving, a task
-- that is inside `sleep_on` is runnable, or a chain of the saved `tmp` pointers leads to it from
-- the queue's head or from a runnable task that has yet to resume.
pub Reach-IsLive : {q : Queue} → Reach empty q → IsLive q
Reach-IsLive here = λ i tmp f. absurd (cc)
Reach-IsLive (later r st) = Step-IsLive st (Reach-IsLive r)
