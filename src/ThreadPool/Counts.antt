-- ===== src/ThreadPool/Counts.antt =====
-- Every started task is in execution or finished (TransferCore/ThreadPool.cpp).
use transfer_udt.Common.{
  ℕ, zero, suc, ◌+◌, ◌≡◌, refl, sym, ap, ◌∙◌, Bool, List, [], ◌∷◌, ◌++◌, arith, All, if◌then◌else◌,
  replicate,
}
use transfer_udt.ThreadPool.{
  Worker, waiting, blocked, running, exited, ThreadPool, Move, takes, finishes, exits, blocks,
  notify_all, clear_workers,
}
use transfer_udt.ThreadPool.Runs.{
  Event, Step, add, refuse, call_stop, ignore_stop, notify, work, join, started_tasks,
  finished_tasks, moved_event, moved, Fits, worker_thread-Fits, add_task_inv, begin_stop_inv,
  IsExited,
}

module _ (Task : Type 0) (test : Task → Bool) where
  abbrev pub one : Task → ℕ
  one task = if test task then 1 else 0

  -- How many tasks of a list pass the test, and how many in execution do.
  abbrev pub count : List Task → ℕ
  count [] = 0
  count (task ∷ rest) = one task + count rest

  abbrev running_one : Worker Task → ℕ
  running_one waiting = 0
  running_one blocked = 0
  running_one (running task) = one task
  running_one exited = 0

  abbrev pub count_running : List (Worker Task) → ℕ
  count_running [] = 0
  count_running (w ∷ rest) = running_one w + count_running rest

  pub count-append : (xs ys : List Task) → count (xs ++ ys) ≡ count xs + count ys
  count-append [] ys = omega arith
  count-append (x ∷ xs) ys = omega (arith, count-append xs ys)

  count_running-append :
      (xs ys : List (Worker Task)) → count_running (xs ++ ys) ≡ count_running xs + count_running ys
  count_running-append [] ys = omega arith
  count_running-append (x ∷ xs) ys = omega (arith, count_running-append xs ys)

  pub count_running-exited :
      (ws : List (Worker Task)) → All (IsExited Task) ws → count_running ws ≡ 0
  count_running-exited [] h = refl
  count_running-exited (exited ∷ rest) h = omega (arith, count_running-exited rest h.1)
  count_running-exited (waiting ∷ rest) h = absurd h.0
  count_running-exited (blocked ∷ rest) h = absurd h.0
  count_running-exited (running task ∷ rest) h = absurd h.0

  pub count_running-new : (n : ℕ) → count_running (replicate n waiting) ≡ 0
  count_running-new zero = refl
  count_running-new (suc n) = omega (arith, count_running-new n)

  abbrev pub IsCounted : List (Event Task) → ThreadPool Task → Type 0
  IsCounted es p =
      count (started_tasks Task es) ≡ count (finished_tasks Task es) + count_running p.workers

  work-IsCounted :
      (es : List (Event Task)) (p : ThreadPool Task) (before after : List (Worker Task))
      (w : Worker Task) (m : Move Task)
      → IsCounted es p
      → p.workers ≡ before ++ (w ∷ after)
      → Fits Task p w m
      → IsCounted (moved_event Task m ∷ es) (moved Task m before after p)
  work-IsCounted es p before after w m h split f = here m f
    where
      was : count_running p.workers ≡ count_running before + (running_one w + count_running after)
      was = ap count_running split ∙ count_running-append before (w ∷ after)

      here :
          (m : Move Task)
          → Fits Task p w m
          → IsCounted (moved_event Task m ∷ es) (moved Task m before after p)
      here (takes task rest) f = omega (
        arith,
        h,
        was,
        ap running_one f.1,
        count-append (started_tasks Task es) (task ∷ []),
        count_running-append before (running task ∷ after),
      )
      here (finishes task) f = omega (
        arith,
        h,
        was,
        ap running_one f,
        count-append (finished_tasks Task es) (task ∷ []),
        count_running-append before (waiting ∷ after),
      )
      here exits f =
          omega (arith, h, was, ap running_one f.2, count_running-append before (exited ∷ after))
      here blocks f =
          omega (arith, h, was, ap running_one f.2, count_running-append before (blocked ∷ after))

  count_running-notify_all :
      (ws : List (Worker Task)) → count_running (notify_all Task ws) ≡ count_running ws
  unfolding notify_all
  count_running-notify_all [] = refl
  count_running-notify_all (waiting ∷ rest) = omega (arith, count_running-notify_all rest)
  count_running-notify_all (blocked ∷ rest) = omega (arith, count_running-notify_all rest)
  count_running-notify_all (running task ∷ rest) = omega (arith, count_running-notify_all rest)
  count_running-notify_all (exited ∷ rest) = omega (arith, count_running-notify_all rest)

  pub Step-IsCounted :
      (es : List (Event Task)) (p q : ThreadPool Task) (e : Event Task)
      → IsCounted es p
      → Step Task p e q
      → IsCounted (e ∷ es) q
  unfolding clear_workers
  Step-IsCounted es p q e h (add {task = task} f) =
      h
      ∙ ap (λ s. count (finished_tasks Task es) + count_running s.workers)
          (sym (add_task_inv Task p q task f).2)
  Step-IsCounted es p q e h (refuse task f) = h
  Step-IsCounted es p q e h (call_stop f) = omega (
    arith,
    h,
    count_running-notify_all p.workers,
    ap (λ s. count_running s.workers) (begin_stop_inv Task p q f).1,
  )
  Step-IsCounted es p q e h (ignore_stop f) = h
  Step-IsCounted es p q e h (notify before after split) = omega (
    arith,
    h,
    ap count_running split,
    count_running-append before (blocked ∷ after),
    count_running-append before (waiting ∷ after),
  )
  Step-IsCounted es p q e h (work before after w m split f) =
      work-IsCounted es p before after w m h split (worker_thread-Fits Task p w m f)
  Step-IsCounted es p q e h (join s x) = omega (arith, h, count_running-exited p.workers x)
