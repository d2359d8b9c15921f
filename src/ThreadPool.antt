-- ===== src/ThreadPool.antt =====
-- The pool of worker threads and its bounded queue (TransferCore/ThreadPool.cpp). The mutex makes
-- each critical section one step; a task is a value of any type, and its execution is the time
-- between two steps of a worker. A worker that blocks in condition.wait goes on only when it is
-- notified or wakes by itself. Logging is left out.
use transfer_udt.Common.{
  ℕ, ◌*◌, ◌%◌, ◌^◌, max, Bool, true, false, List, [], ◌∷◌, ◌++◌, length, replicate, leb, ◌==◌,
  if◌then◌else◌, Option, none, some, map,
}
pub mod Runs
mod Order
mod Counts
mod Drain
mod Progress
mod Tests

-- The exceptions that the constructor and addTask throw.
pub data PoolError : Type 0 where
  no_workers no_capacity pool_stopped queue_full : PoolError

pub data Result (A : Type 0) : Type 0 where
  ok : A → Result A
  err : PoolError → Result A

abbrev default_pending_task_limit : ℕ → ℕ
default_pending_task_limit num_threads = max ((num_threads * 64) % 2 ^ 64) 1

module _ (Task : Type 0) where
  -- Where a worker thread stands: before the test of the wait in workerThread, blocked in that wait,
  -- in a task, or returned.
  pub data Worker : Type 0 where
    waiting : Worker
    blocked : Worker
    running : Task → Worker
    exited : Worker

  pub record ThreadPool : Type 0 where
    pub workers : List Worker
    pub tasks : List Task
    pub max_pending_tasks : ℕ
    pub stopped : Bool

  unfoldable pub new : ℕ → ℕ → Result ThreadPool
  new num_threads max_pending =
      let limit =
        if max_pending == 0 then default_pending_task_limit num_threads else max_pending in
      if num_threads == 0
      then err PoolError.no_workers
      else if limit == 0
      then err PoolError.no_capacity
      else ok (record {
        workers = replicate num_threads waiting;
        tasks = [];
        max_pending_tasks = limit;
        stopped = false;
      })

  unfoldable pub add_task : Task → ThreadPool → Result ThreadPool
  add_task task p =
      if p.stopped
      then err PoolError.pool_stopped
      else if leb p.max_pending_tasks (length p.tasks)
      then err PoolError.queue_full
      else ok (record p { tasks = p.tasks ++ (task ∷ []) })

  abbrev pub notified : Worker → Worker
  notified blocked = waiting
  notified waiting = waiting
  notified (running task) = running task
  notified exited = exited

  -- condition.notify_all()
  unfoldable pub notify_all : List Worker → List Worker
  notify_all workers = map notified workers

  -- stop up to the joins; `none` where it finds the pool stopped and returns.
  unfoldable pub begin_stop : ThreadPool → Option ThreadPool
  begin_stop p =
      if p.stopped then none else some (record p { stopped = true; workers = notify_all p.workers })

  -- The end of stop, once every worker is joined.
  unfoldable pub clear_workers : ThreadPool → ThreadPool
  clear_workers p = record p { workers = [] }

  -- What a worker does next, with the queue after it.
  pub data Move : Type 0 where
    takes : Task → List Task → Move
    finishes : Task → Move
    exits : Move
    blocks : Move

  abbrev pub tested : Bool → List Task → Move
  tested true [] = exits
  tested false [] = blocks
  tested stopped (task ∷ rest) = takes task rest

  -- One step of workerThread: the test of the wait with what follows it up to the pop, or the end of
  -- a task, which returns or throws. `none` is a thread that is blocked or has returned.
  unfoldable pub worker_thread : ThreadPool → Worker → Option Move
  worker_thread p waiting = some (tested p.stopped p.tasks)
  worker_thread p blocked = none
  worker_thread p (running task) = some (finishes task)
  worker_thread p exited = none

  unfoldable pub is_running : ThreadPool → Bool
  is_running p = if p.stopped then false else true

  unfoldable pub get_thread_count : ThreadPool → ℕ
  get_thread_count p = length p.workers

  unfoldable pub get_pending_task_count : ThreadPool → ℕ
  get_pending_task_count p = length p.tasks

  unfoldable pub get_max_pending_task_count : ThreadPool → ℕ
  get_max_pending_task_count p = p.max_pending_tasks
