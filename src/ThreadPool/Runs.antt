-- ===== src/ThreadPool/Runs.antt =====
-- The interleavings of callers and workers of a pool (TransferCore/ThreadPool.cpp).
use transfer_udt.Common.{
  ◌<◌, ◌≡◌, arith, length, Bool, true, false, List, [], ◌∷◌, ◌++◌, All, none, some,
}
use transfer_udt.ThreadPool.{
  PoolError, ok, err, Worker, waiting, blocked, running, exited, ThreadPool, Move, takes, finishes,
  exits, blocks, add_task, notify_all, begin_stop, clear_workers, worker_thread,
}

module _ (Task : Type 0) where
  pub data Event : Type 0 where
    accepted started finished : Task → Event
    refused : PoolError → Event
    stop_called stop_ignored worker_blocked worker_notified worker_exited stop_returned : Event

  abbrev pub IsExited : Worker Task → Type 0
  IsExited waiting = ⊥
  IsExited blocked = ⊥
  IsExited (running task) = ⊥
  IsExited exited = Unit

  -- What a worker's move leaves: the queue, the worker's place and the event.
  abbrev pub moved_tasks : Move Task → List Task → List Task
  moved_tasks (takes task rest) tasks = rest
  moved_tasks (finishes task) tasks = tasks
  moved_tasks exits tasks = tasks
  moved_tasks blocks tasks = tasks

  abbrev pub moved_worker : Move Task → Worker Task
  moved_worker (takes task rest) = running task
  moved_worker (finishes task) = waiting
  moved_worker exits = exited
  moved_worker blocks = blocked

  abbrev pub moved_event : Move Task → Event
  moved_event (takes task rest) = started task
  moved_event (finishes task) = finished task
  moved_event exits = worker_exited
  moved_event blocks = worker_blocked

  abbrev pub moved :
      Move Task → List (Worker Task) → List (Worker Task) → ThreadPool Task → ThreadPool Task
  moved m before after p = record p {
    workers = before ++ (moved_worker m ∷ after);
    tasks = moved_tasks m p.tasks;
  }

  -- One step of any thread.
  pub data Step : ThreadPool Task → Event → ThreadPool Task → Type 0 where
    add :
        {p q : ThreadPool Task} {task : Task}
        → add_task Task task p ≡ ok q
        → Step p (accepted task) q
    refuse :
        {p : ThreadPool Task} (task : Task) {e : PoolError}
        → add_task Task task p ≡ err e
        → Step p (refused e) p
    call_stop : {p q : ThreadPool Task} → begin_stop Task p ≡ some q → Step p stop_called q
    ignore_stop : {p : ThreadPool Task} → begin_stop Task p ≡ none → Step p stop_ignored p
    -- condition.notify_one() of addTask, for whichever blocked worker, or a spurious wakeup
    notify :
        {p : ThreadPool Task} (before after : List (Worker Task))
        → p.workers ≡ before ++ (blocked ∷ after)
        → Step p worker_notified (record p { workers = before ++ (waiting ∷ after) })
    work :
        {p : ThreadPool Task} (before after : List (Worker Task)) (w : Worker Task) (m : Move Task)
        → p.workers ≡ before ++ (w ∷ after)
        → worker_thread Task p w ≡ some m
        → Step p (moved_event m) (moved m before after p)
    join :
        {p : ThreadPool Task}
        → p.stopped ≡ true
        → All IsExited p.workers
        → Step p stop_returned (clear_workers Task p)

  -- A run from `p`, its newest event first.
  pub data Run (p : ThreadPool Task) : List Event → ThreadPool Task → Type 0 where
    begin : Run p [] p
    then_step :
        {es : List Event} {q r : ThreadPool Task} {e : Event}
        → Run p es q
        → Step q e r
        → Run p (e ∷ es) r

  -- The tasks accepted, started and finished in a run, in the order of time.
  abbrev pub accepted_tasks : List Event → List Task
  accepted_tasks [] = []
  accepted_tasks (accepted task ∷ es) = accepted_tasks es ++ (task ∷ [])
  accepted_tasks (started task ∷ es) = accepted_tasks es
  accepted_tasks (finished task ∷ es) = accepted_tasks es
  accepted_tasks (refused e ∷ es) = accepted_tasks es
  accepted_tasks (stop_called ∷ es) = accepted_tasks es
  accepted_tasks (stop_ignored ∷ es) = accepted_tasks es
  accepted_tasks (worker_blocked ∷ es) = accepted_tasks es
  accepted_tasks (worker_notified ∷ es) = accepted_tasks es
  accepted_tasks (worker_exited ∷ es) = accepted_tasks es
  accepted_tasks (stop_returned ∷ es) = accepted_tasks es

  abbrev pub started_tasks : List Event → List Task
  started_tasks [] = []
  started_tasks (started task ∷ es) = started_tasks es ++ (task ∷ [])
  started_tasks (accepted task ∷ es) = started_tasks es
  started_tasks (finished task ∷ es) = started_tasks es
  started_tasks (refused e ∷ es) = started_tasks es
  started_tasks (stop_called ∷ es) = started_tasks es
  started_tasks (stop_ignored ∷ es) = started_tasks es
  started_tasks (worker_blocked ∷ es) = started_tasks es
  started_tasks (worker_notified ∷ es) = started_tasks es
  started_tasks (worker_exited ∷ es) = started_tasks es
  started_tasks (stop_returned ∷ es) = started_tasks es

  abbrev pub finished_tasks : List Event → List Task
  finished_tasks [] = []
  finished_tasks (finished task ∷ es) = finished_tasks es ++ (task ∷ [])
  finished_tasks (accepted task ∷ es) = finished_tasks es
  finished_tasks (started task ∷ es) = finished_tasks es
  finished_tasks (refused e ∷ es) = finished_tasks es
  finished_tasks (stop_called ∷ es) = finished_tasks es
  finished_tasks (stop_ignored ∷ es) = finished_tasks es
  finished_tasks (worker_blocked ∷ es) = finished_tasks es
  finished_tasks (worker_notified ∷ es) = finished_tasks es
  finished_tasks (worker_exited ∷ es) = finished_tasks es
  finished_tasks (stop_returned ∷ es) = finished_tasks es

  abbrev pub has_exit : List Event → Bool
  has_exit [] = false
  has_exit (worker_exited ∷ es) = true
  has_exit (e ∷ es) = has_exit es

  abbrev pub has_stop : List Event → Bool
  has_stop [] = false
  has_stop (stop_called ∷ es) = true
  has_stop (e ∷ es) = has_stop es

  -- What the queue and the worker are when the worker moves.
  abbrev pub Fits : ThreadPool Task → Worker Task → Move Task → Type 0
  Fits p w (takes task rest) = (p.tasks ≡ task ∷ rest) × (w ≡ waiting)
  Fits p w (finishes task) = w ≡ running task
  Fits p w exits = (p.tasks ≡ []) × (p.stopped ≡ true) × (w ≡ waiting)
  Fits p w blocks = (p.tasks ≡ []) × (p.stopped ≡ false) × (w ≡ waiting)

  pub worker_thread-Fits :
      (p : ThreadPool Task) (w : Worker Task) (m : Move Task)
      → worker_thread Task p w ≡ some m
      → Fits p w m
  unfolding worker_thread
  worker_thread-Fits p w m h = ground arith

  pub add_task_inv :
      (p q : ThreadPool Task) (task : Task)
      → add_task Task task p ≡ ok q
      → (p.stopped ≡ false)
        × (length p.tasks < p.max_pending_tasks)
        × (q ≡ record p { tasks = p.tasks ++ (task ∷ []) })
  unfolding add_task
  add_task_inv p q task h = ground arith

  pub begin_stop_inv :
      (p q : ThreadPool Task)
      → begin_stop Task p ≡ some q
      → (p.stopped ≡ false) × (q ≡ record p { stopped = true; workers = notify_all Task p.workers })
  unfolding begin_stop
  begin_stop_inv p q h = ground arith
