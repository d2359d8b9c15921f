-- ===== src/ThreadPool/Drain.antt =====
-- When stop returns, every accepted task has been executed (TransferCore/ThreadPool.cpp).
use mathlib.Core.Path.{subst}
use transfer_udt.Common.{
  ℕ, zero, suc, ◌≡◌, refl, sym, ap, ◌∙◌, Bool, true, false, List, [], ◌∷◌, ◌++◌, arith, All,
  replicate,
}
use transfer_udt.ThreadPool.{
  ok, Worker, waiting, blocked, running, exited, ThreadPool, Move, takes, finishes, exits, blocks,
  new, notify_all, clear_workers,
}
use transfer_udt.ThreadPool.Runs.{
  Event, stop_returned, Step, add, refuse, call_stop, ignore_stop, notify, work, join, Run, begin,
  then_step, accepted_tasks, started_tasks, finished_tasks, has_exit, moved_event, moved, Fits,
  worker_thread-Fits, add_task_inv, begin_stop_inv, IsExited,
}
use transfer_udt.ThreadPool.Order.{made-IsQueued}
use transfer_udt.ThreadPool.Counts.{
  count, count_running, count-append, count_running-exited, count_running-new, IsCounted,
  Step-IsCounted,
}

module _ (Task : Type 0) where
  pub record IsDrained (es : List (Event Task)) (p : ThreadPool Task) : Type 0 where
    pub exits_done : has_exit Task es ≡ true → (p.stopped ≡ true) × (p.tasks ≡ [])
    pub all_gone : All (IsExited Task) p.workers → has_exit Task es ≡ true

  not_nil : (task : Task) (rest : List Task) → (task ∷ rest) ≡ [] → ⊥
  not_nil task rest h = ground arith

  not_both : true ≡ false → ⊥
  not_both h = ground arith

  at-IsExited :
      (before after : List (Worker Task)) (w : Worker Task)
      → All (IsExited Task) (before ++ (w ∷ after))
      → IsExited Task w
  at-IsExited [] after w h = h.0
  at-IsExited (b ∷ before) after w h = at-IsExited before after w h.1

  work-IsDrained :
      (es : List (Event Task)) (p : ThreadPool Task) (before after : List (Worker Task))
      (w : Worker Task) (m : Move Task)
      → IsDrained es p
      → Fits Task p w m
      → IsDrained (moved_event Task m ∷ es) (moved Task m before after p)
  work-IsDrained es p before after w (takes task rest) h f = record {
    exits_done = λ x. absurd (not_nil task rest (sym f.0 ∙ (h.exits_done x).1));
    all_gone = λ x. absurd (at-IsExited before after (running task) x);
  }
  work-IsDrained es p before after w (finishes task) h f = record {
    exits_done = h.exits_done;
    all_gone = λ x. absurd (at-IsExited before after waiting x);
  }
  work-IsDrained es p before after w blocks h f = record {
    exits_done = h.exits_done;
    all_gone = λ x. absurd (at-IsExited before after blocked x);
  }
  work-IsDrained es p before after w exits h f = record {
    exits_done = λ x. (f.1, f.0);
    all_gone = λ x. refl;
  }

  notified-IsExited :
      (ws : List (Worker Task)) → All (IsExited Task) (notify_all Task ws) → All (IsExited Task) ws
  unfolding notify_all
  notified-IsExited [] h = tt
  notified-IsExited (waiting ∷ rest) h = absurd h.0
  notified-IsExited (blocked ∷ rest) h = absurd h.0
  notified-IsExited (running task ∷ rest) h = absurd h.0
  notified-IsExited (exited ∷ rest) h = (tt, notified-IsExited rest h.1)

  Step-IsDrained :
      (es : List (Event Task)) (p q : ThreadPool Task) (e : Event Task)
      → IsDrained es p
      → Step Task p e q
      → IsDrained (e ∷ es) q
  unfolding clear_workers
  Step-IsDrained es p q e h (add {task = task} f) =
      let (on, _, made) = add_task_inv Task p q task f in
      record {
        exits_done = λ x. absurd (not_both (sym (h.exits_done x).0 ∙ on));
        all_gone = λ x. h.all_gone (subst (λ s. All (IsExited Task) s.workers) made x);
      }
  Step-IsDrained es p q e h (refuse task f) = record {
    exits_done = h.exits_done;
    all_gone = h.all_gone;
  }
  Step-IsDrained es p q e h (call_stop f) =
      let (on, made) = begin_stop_inv Task p q f in
      record {
        exits_done = λ x. absurd (not_both (sym (h.exits_done x).0 ∙ on));
        all_gone = λ x.
            h.all_gone
              (notified-IsExited p.workers (subst (λ s. All (IsExited Task) s.workers) made x));
      }
  Step-IsDrained es p q e h (ignore_stop f) = record {
    exits_done = h.exits_done;
    all_gone = h.all_gone;
  }
  Step-IsDrained es p q e h (notify before after split) = record {
    exits_done = h.exits_done;
    all_gone = λ x. absurd (at-IsExited before after waiting x);
  }
  Step-IsDrained es p q e h (work before after w m split f) =
      work-IsDrained es p before after w m h (worker_thread-Fits Task p w m f)
  Step-IsDrained es p q e h (join s x) = record {
    exits_done = h.exits_done;
    all_gone = λ y. h.all_gone x;
  }

  pub new-IsDrained :
      (num_threads max_pending : ℕ) (p : ThreadPool Task)
      → new Task num_threads max_pending ≡ ok p
      → IsDrained [] p
  unfolding new
  new-IsDrained zero max_pending p h = ground arith
  new-IsDrained (suc n) max_pending p h = ground arith

  pub Run-IsDrained :
      (p q : ThreadPool Task) (es : List (Event Task))
      → IsDrained [] p
      → Run Task p es q
      → IsDrained es q
  Run-IsDrained p q es h begin = h
  Run-IsDrained p q es h (then_step {es = earlier} {q = mid} {e = e} r s) =
      Step-IsDrained earlier mid q e (Run-IsDrained p mid earlier h r) s

  Run-IsCounted :
      (test : Task → Bool) (p q : ThreadPool Task) (es : List (Event Task))
      → count_running Task test p.workers ≡ 0
      → Run Task p es q
      → IsCounted Task test es q
  Run-IsCounted test p q es h begin = omega (arith, h)
  Run-IsCounted test p q es h (then_step {es = earlier} {q = mid} {e = e} r s) =
      Step-IsCounted Task test earlier mid q e (Run-IsCounted test p mid earlier h r) s

  new-workers :
      (num_threads max_pending : ℕ) (p : ThreadPool Task)
      → new Task num_threads max_pending ≡ ok p
      → p.workers ≡ replicate num_threads waiting
  unfolding new
  new-workers num_threads max_pending p h = ground arith

  moved_event_ne : (m : Move Task) → moved_event Task m ≡ stop_returned → ⊥
  moved_event_ne (takes task rest) h = ground arith
  moved_event_ne (finishes task) h = ground arith
  moved_event_ne exits h = ground arith
  moved_event_ne blocks h = ground arith

  join_inv :
      (p q : ThreadPool Task) (e : Event Task)
      → Step Task p e q
      → e ≡ stop_returned
      → All (IsExited Task) p.workers × (q ≡ clear_workers Task p)
  join_inv p q e (add f) h = ground arith
  join_inv p q e (refuse task f) h = ground arith
  join_inv p q e (call_stop f) h = ground arith
  join_inv p q e (ignore_stop f) h = ground arith
  join_inv p q e (notify before after split) h = ground arith
  join_inv p q e (work before after w m split f) h = absurd (moved_event_ne m h)
  join_inv p q e (join s gone) h = (gone, refl)

-- In any interleaving of callers and workers on a new pool, when the call of stop that joins the
-- workers returns (a call that finds the pool stopped returns at once, without this promise), no task is left in the queue, none is in execution, and every accepted task has been
-- executed, each as often as it was accepted: of whatever tasks one counts, as many are finished as
-- were accepted.
pub stop_completes :
    (Task : Type 0) (num_threads max_pending : ℕ) (p q : ThreadPool Task) (es : List (Event Task))
    → new Task num_threads max_pending ≡ ok p
    → Run Task p (stop_returned ∷ es) q
    → (q.tasks ≡ [])
      × (q.workers ≡ [])
      × ((test : Task → Bool)
          → count Task test (finished_tasks Task es) ≡ count Task test (accepted_tasks Task es))
unfolding clear_workers
stop_completes Task num_threads max_pending p q es made (then_step {q = mid} r s) =
    (ap (λ x. x.tasks) cleared ∙ empty, ap (λ x. x.workers) cleared, counts)
  where
    gone : All (IsExited Task) mid.workers
    gone = (join_inv Task mid q stop_returned s refl).0

    cleared : q ≡ clear_workers Task mid
    cleared = (join_inv Task mid q stop_returned s refl).1

    fresh : IsDrained Task es mid
    fresh = Run-IsDrained Task p mid es (new-IsDrained Task num_threads max_pending p made) r

    empty : mid.tasks ≡ []
    empty = (fresh.exits_done (fresh.all_gone gone)).1

    counts :
        (test : Task → Bool)
        → count Task test (finished_tasks Task es) ≡ count Task test (accepted_tasks Task es)
    counts test =
        let queued = made-IsQueued Task num_threads max_pending p mid es made r in
        omega (
          arith,
          Run-IsCounted Task test p mid es
              (ap (count_running Task test) (new-workers Task num_threads max_pending p made)
                ∙ count_running-new Task test num_threads)
              r,
          count_running-exited Task test mid.workers gone,
          ap (count Task test) queued.ordered,
          count-append Task test (started_tasks Task es) mid.tasks,
          ap (count Task test) empty,
        )
