-- ===== src/ThreadPool/Progress.antt =====
-- After stop, the workers come to an end (TransferCore/ThreadPool.cpp).
use mathlib.Core.Path.{subst}
use transfer_udt.Common.{
  ℕ, suc, ◌+◌, ◌*◌, ◌≡◌, refl, sym, ap, true, List, [], ◌∷◌, ◌++◌, length, some, arith, All, inl,
  inr, ◌⊎◌,
}
use transfer_udt.ThreadPool.{
  Worker, waiting, blocked, running, exited, ok, new, ThreadPool, Move, takes, finishes, exits,
  blocks, tested, notify_all, worker_thread, clear_workers,
}
use transfer_udt.ThreadPool.Runs.{
  Event, stop_returned, Step, add, refuse, call_stop, ignore_stop, notify, work, join, Run, begin,
  then_step, moved_event, moved, Fits, worker_thread-Fits, add_task_inv, begin_stop_inv, IsExited,
}
use transfer_udt.ThreadPool.Drain.{Run-IsDrained, new-IsDrained}

module _ (Task : Type 0) where
  abbrev steps_of : Worker Task → ℕ
  steps_of waiting = 1
  steps_of blocked = 1
  steps_of (running task) = 2
  steps_of exited = 0

  abbrev steps_of_all : List (Worker Task) → ℕ
  steps_of_all [] = 0
  steps_of_all (w ∷ rest) = steps_of w + steps_of_all rest

  -- The steps that the workers still have to take: two for a queued task, one for a task in
  -- execution, and one to return.
  abbrev pub work_left : ThreadPool Task → ℕ
  work_left p = 2 * length p.tasks + steps_of_all p.workers

  steps_of_all-append :
      (xs ys : List (Worker Task)) → steps_of_all (xs ++ ys) ≡ steps_of_all xs + steps_of_all ys
  steps_of_all-append [] ys = omega arith
  steps_of_all-append (x ∷ xs) ys = omega (arith, steps_of_all-append xs ys)

  moved-work_left :
      (p : ThreadPool Task) (before after : List (Worker Task)) (w : Worker Task) (m : Move Task)
      → p.workers ≡ before ++ (w ∷ after)
      → Fits Task p w m
      → p.stopped ≡ true
      → work_left p ≡ suc (work_left (moved Task m before after p))
  moved-work_left p before after w blocks split f s = absurd (ground (arith, s, f.1))
  moved-work_left p before after w (takes task rest) split f s = omega (
    arith,
    ap steps_of_all split,
    steps_of_all-append before (w ∷ after),
    ap length f.0,
    ap steps_of f.1,
    steps_of_all-append before (running task ∷ after),
  )
  moved-work_left p before after w (finishes task) split f s = omega (
    arith,
    ap steps_of_all split,
    steps_of_all-append before (w ∷ after),
    ap steps_of f,
    steps_of_all-append before (waiting ∷ after),
  )
  moved-work_left p before after w exits split f s = omega (
    arith,
    ap steps_of_all split,
    steps_of_all-append before (w ∷ after),
    ap steps_of f.2,
    steps_of_all-append before (exited ∷ after),
  )

  abbrev IsAwake : Worker Task → Type 0
  IsAwake blocked = ⊥
  IsAwake waiting = Unit
  IsAwake (running task) = Unit
  IsAwake exited = Unit

  -- A list of workers in which one can move, taken apart there.
  record Alive (ws : List (Worker Task)) : Type 0 where
    before : List (Worker Task)
    after : List (Worker Task)
    worker : Worker Task
    split : ws ≡ before ++ (worker ∷ after)
    left : steps_of worker ≡ 0 → ⊥
    awake : IsAwake worker

  find-Alive : (ws : List (Worker Task)) → All IsAwake ws → All (IsExited Task) ws ⊎ Alive ws
  find-Alive [] h = inl tt
  find-Alive (blocked ∷ rest) h = absurd h.0
  find-Alive (waiting ∷ rest) h = inr (record {
    before = [];
    after = rest;
    worker = waiting;
    split = refl;
    left = λ e. ground arith;
    awake = tt;
  })
  find-Alive (running task ∷ rest) h = inr (record {
    before = [];
    after = rest;
    worker = running task;
    split = refl;
    left = λ e. ground arith;
    awake = tt;
  })
  find-Alive (exited ∷ rest) h = elim (find-Alive rest h.1) [
    | inl gone ↦ inl (tt, gone)
    | inr a ↦ inr (record {
      before = exited ∷ a.before;
      after = a.after;
      worker = a.worker;
      split = ap (◌∷◌ exited) a.split;
      left = a.left;
      awake = a.awake;
    })
  ]

  can_move :
      (p : ThreadPool Task) (w : Worker Task)
      → IsAwake w
      → (steps_of w ≡ 0 → ⊥)
      → (m : Move Task) × (worker_thread Task p w ≡ some m)
  unfolding worker_thread
  can_move p waiting a left = (tested Task p.stopped p.tasks, refl)
  can_move p blocked a left = absurd a
  can_move p (running task) a left = (finishes task, refl)
  can_move p exited a left = absurd (left refl)

  steps_of_all-exited : (ws : List (Worker Task)) → All (IsExited Task) ws → steps_of_all ws ≡ 0
  steps_of_all-exited [] h = refl
  steps_of_all-exited (exited ∷ rest) h = omega (arith, steps_of_all-exited rest h.1)
  steps_of_all-exited (waiting ∷ rest) h = absurd h.0
  steps_of_all-exited (blocked ∷ rest) h = absurd h.0
  steps_of_all-exited (running task ∷ rest) h = absurd h.0

  -- Once the pool is stopped, no worker is blocked.
  IsAlert : ThreadPool Task → Type 0
  IsAlert p = p.stopped ≡ true → All IsAwake p.workers

  replaced :
      (before after : List (Worker Task)) (w v : Worker Task)
      → IsAwake v
      → All IsAwake (before ++ (w ∷ after))
      → All IsAwake (before ++ (v ∷ after))
  replaced [] after w v a h = (a, h.1)
  replaced (b ∷ before) after w v a h = (h.0, replaced before after w v a h.1)

  notified-IsAwake : (ws : List (Worker Task)) → All IsAwake (notify_all Task ws)
  unfolding notify_all
  notified-IsAwake [] = tt
  notified-IsAwake (waiting ∷ rest) = (tt, notified-IsAwake rest)
  notified-IsAwake (blocked ∷ rest) = (tt, notified-IsAwake rest)
  notified-IsAwake (running task ∷ rest) = (tt, notified-IsAwake rest)
  notified-IsAwake (exited ∷ rest) = (tt, notified-IsAwake rest)

  work-IsAlert :
      (p : ThreadPool Task) (before after : List (Worker Task)) (w : Worker Task) (m : Move Task)
      → p.workers ≡ before ++ (w ∷ after)
      → Fits Task p w m
      → IsAlert p
      → IsAlert (moved Task m before after p)
  unfolding IsAlert
  work-IsAlert p before after w (takes task rest) split f h s =
      replaced before after w (running task) tt (subst (All IsAwake) split (h s))
  work-IsAlert p before after w (finishes task) split f h s =
      replaced before after w waiting tt (subst (All IsAwake) split (h s))
  work-IsAlert p before after w exits split f h s =
      replaced before after w exited tt (subst (All IsAwake) split (h s))
  work-IsAlert p before after w blocks split f h s = absurd (ground (arith, s, f.1))

  Step-IsAlert : (p q : ThreadPool Task) (e : Event Task) → IsAlert p → Step Task p e q → IsAlert q
  unfolding IsAlert clear_workers
  Step-IsAlert p q e h (add {task = task} f) s =
      let (on, _, made) = add_task_inv Task p q task f in
      absurd (ground (arith, on, s, ap (λ x. x.stopped) made))
  Step-IsAlert p q e h (refuse task f) s = h s
  Step-IsAlert p q e h (call_stop f) s =
      let (_, made) = begin_stop_inv Task p q f in
      subst (λ x. All IsAwake x.workers) (sym made) (notified-IsAwake p.workers)
  Step-IsAlert p q e h (ignore_stop f) s = h s
  Step-IsAlert p q e h (notify before after split) s =
      replaced before after blocked waiting tt (subst (All IsAwake) split (h s))
  Step-IsAlert p q e h (work before after w m split f) s =
      work-IsAlert p before after w m split (worker_thread-Fits Task p w m f) h s
  Step-IsAlert p q e h (join s' x) s = tt

  Run-IsAlert :
      (p q : ThreadPool Task) (es : List (Event Task)) → IsAlert p → Run Task p es q → IsAlert q
  Run-IsAlert p q es h begin = h
  Run-IsAlert p q es h (then_step {es = earlier} {q = mid} {e = e} r s) =
      Step-IsAlert mid q e (Run-IsAlert p mid earlier h r) s

  new-IsAlert :
      (num_threads max_pending : ℕ) (p : ThreadPool Task)
      → new Task num_threads max_pending ≡ ok p
      → IsAlert p
  unfolding new IsAlert
  new-IsAlert num_threads max_pending p h s = ground (arith, h, s)

  -- A step of a worker, and so many of them with no step of a caller and no wakeup between them.
  pub data WorkStep (p : ThreadPool Task) : ThreadPool Task → Type 0 where
    moves :
        (before after : List (Worker Task)) (w : Worker Task) (m : Move Task)
        → p.workers ≡ before ++ (w ∷ after)
        → worker_thread Task p w ≡ some m
        → WorkStep p (moved Task m before after p)

  pub data WorkRun (p : ThreadPool Task) : ℕ → ThreadPool Task → Type 0 where
    at_rest : WorkRun p 0 p
    works : {n : ℕ} {q r : ThreadPool Task} → WorkRun p n q → WorkStep q r → WorkRun p (suc n) r

  WorkStep_lem :
      {p q : ThreadPool Task}
      → WorkStep p q
      → p.stopped ≡ true
      → (q.stopped ≡ true)
        × (work_left p ≡ suc (work_left q))
        × ((e : Event Task) × Step Task p e q)
  WorkStep_lem {p = p} (moves before after w m split f) s = (
    s,
    moved-work_left p before after w m split (worker_thread-Fits Task p w m f) s,
    (moved_event Task m, work before after w m split f),
  )

  -- Steps of workers continue a run and use up their count.
  continued :
      {p q r : ThreadPool Task} {es : List (Event Task)} {n : ℕ}
      → Run Task p es q
      → q.stopped ≡ true
      → WorkRun q n r
      → (r.stopped ≡ true)
        × (n + work_left r ≡ work_left q)
        × ((more : List (Event Task)) × Run Task p more r)
  continued {es = es} run s at_rest = (s, omega arith, (es, run))
  continued run s (works {n = n} rest t) =
      let (s', counted, (earlier, run')) = continued run s rest in
      let (s'', less, (e, st)) = WorkStep_lem t s' in
      (s'', omega (arith, counted, less), (e ∷ earlier, then_step run' st))

  -- The workers are done and stop returns, or one of them can move.
  pub record IsDone (r : ThreadPool Task) : Type 0 where
    pub nothing_left : work_left r ≡ 0
    pub empty : r.tasks ≡ []
    pub returns : Step Task r stop_returned (clear_workers Task r)

  goes_on :
      (r : ThreadPool Task)
      → r.stopped ≡ true
      → All IsAwake r.workers
      → (All (IsExited Task) r.workers → r.tasks ≡ [])
      → IsDone r ⊎ ((next : ThreadPool Task) × WorkStep r next)
  goes_on r s awake live = elim (find-Alive r.workers awake) [
    | inl gone ↦ inl (record {
      nothing_left = omega (arith, ap length (live gone), steps_of_all-exited r.workers gone);
      empty = live gone;
      returns = join s gone;
    })
    | inr a ↦
        let (m, e) = can_move r a.worker a.awake a.left in
        inr (moved Task m a.before a.after r, moves a.before a.after a.worker m a.split e)
  ]

-- In any state that a new pool reaches and in which stop has been called: however the workers go on
-- by themselves, with no step of a caller and no further notification or wakeup, each of their steps
-- takes one from the work that is left (two steps for a queued task, one for a task in execution and
-- one for each worker that has not returned); and at every point either a worker can move, or no work
-- is left, the queue is empty and stop returns. (A task in execution is assumed to end.)
pub stop_terminates :
    (Task : Type 0) (num_threads max_pending : ℕ) (p q r : ThreadPool Task) (es : List (Event Task))
    (n : ℕ)
    → new Task num_threads max_pending ≡ ok p
    → Run Task p es q
    → q.stopped ≡ true
    → WorkRun Task q n r
    → (n + work_left Task r ≡ work_left Task q)
      × (IsDone Task r ⊎ ((next : ThreadPool Task) × WorkStep Task r next))
unfolding IsAlert
stop_terminates Task num_threads max_pending p q r es n made run s more =
    let (s', counted, (all_events, run')) = continued Task run s more in
    let fresh =
      Run-IsDrained Task p r all_events (new-IsDrained Task num_threads max_pending p made) run' in
    let alert =
      Run-IsAlert Task p r all_events (new-IsAlert Task num_threads max_pending p made) run' in
    (counted, goes_on Task r s' (alert s') (λ x. (fresh.exits_done (fresh.all_gone x)).1))
