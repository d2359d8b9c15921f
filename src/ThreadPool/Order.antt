-- ===== src/ThreadPool/Order.antt =====
-- First in, first out, within the capacity, and nothing accepted after a stop
-- (TransferCore/ThreadPool.cpp).
use transfer_udt.Common.{
  ℕ, ◌-◌, leb, if◌then◌else◌, ◌≤◌, ◌<◌, ◌≡◌, refl, ap, false, List, [], ◌∷◌, ◌++◌, length,
  length-append, append_assoc, arith,
}
use transfer_udt.ThreadPool.{
  PoolError, ok, err, Worker, ThreadPool, Move, takes, finishes, exits, blocks, new, add_task,
  clear_workers, get_pending_task_count, get_max_pending_task_count,
}
use transfer_udt.ThreadPool.Runs.{
  Event, accepted, Step, add, refuse, call_stop, ignore_stop, notify, work, join, Run, begin,
  then_step, accepted_tasks, started_tasks, has_stop, moved_event, moved, Fits, worker_thread-Fits,
  add_task_inv, begin_stop_inv,
}

module _ (Task : Type 0) where
  pub record IsQueued (es : List (Event Task)) (limit : ℕ) (p : ThreadPool Task) : Type 0 where
    pub ordered : accepted_tasks Task es ≡ started_tasks Task es ++ p.tasks
    pub bounded : length p.tasks ≤ limit
    pub limited : p.max_pending_tasks ≡ limit
    pub stops : has_stop Task es ≡ p.stopped

  add_task-IsQueued :
      (es : List (Event Task)) (limit : ℕ) (p q : ThreadPool Task) (task : Task)
      → IsQueued es limit p
      → add_task Task task p ≡ ok q
      → IsQueued (accepted task ∷ es) limit q
  add_task-IsQueued es limit p q task h e = ground (
    arith,
    h,
    add_task_inv Task p q task e,
    append_assoc (started_tasks Task es) p.tasks (task ∷ []),
    length-append p.tasks (task ∷ []),
  )

  work-IsQueued :
      (es : List (Event Task)) (limit : ℕ) (p : ThreadPool Task) (before after : List (Worker Task))
      (w : Worker Task) (m : Move Task)
      → IsQueued es limit p
      → Fits Task p w m
      → IsQueued (moved_event Task m ∷ es) limit (moved Task m before after p)
  work-IsQueued es limit p before after w (takes task rest) h f =
      ground (arith, h, f, append_assoc (started_tasks Task es) (task ∷ []) rest)
  work-IsQueued es limit p before after w (finishes task) h f = ground (arith, h)
  work-IsQueued es limit p before after w exits h f = ground (arith, h)
  work-IsQueued es limit p before after w blocks h f = ground (arith, h)

  Step-IsQueued :
      (es : List (Event Task)) (limit : ℕ) (p q : ThreadPool Task) (e : Event Task)
      → IsQueued es limit p
      → Step Task p e q
      → IsQueued (e ∷ es) limit q
  unfolding clear_workers
  Step-IsQueued es limit p q e h (add {task = task} f) = add_task-IsQueued es limit p q task h f
  Step-IsQueued es limit p q e h (refuse task f) = ground (arith, h)
  Step-IsQueued es limit p q e h (call_stop f) = ground (arith, h, begin_stop_inv Task p q f)
  Step-IsQueued es limit p q e h (ignore_stop f) = ground (arith, h)
  Step-IsQueued es limit p q e h (notify before after split) = ground (arith, h)
  Step-IsQueued es limit p q e h (work before after w m split f) =
      work-IsQueued es limit p before after w m h (worker_thread-Fits Task p w m f)
  Step-IsQueued es limit p q e h (join s x) = ground (arith, h)

  Run-IsQueued :
      (p q : ThreadPool Task) (es : List (Event Task))
      → p.tasks ≡ []
      → p.stopped ≡ false
      → Run Task p es q
      → IsQueued es p.max_pending_tasks q
  Run-IsQueued p q es none_yet on begin = ground (arith, none_yet, on)
  Run-IsQueued p q es none_yet on (then_step {es = earlier} {q = mid} {e = e} r s) =
      Step-IsQueued earlier p.max_pending_tasks mid q e (Run-IsQueued p mid earlier none_yet on r) s

  new_inv :
      (num_threads max_pending : ℕ) (p : ThreadPool Task)
      → new Task num_threads max_pending ≡ ok p
      → (p.tasks ≡ []) × (p.stopped ≡ false) × (0 < p.max_pending_tasks)
  unfolding new
  new_inv num_threads max_pending p h = ground arith

module _ (Task : Type 0) (num_threads max_pending : ℕ) (p q : ThreadPool Task)
    (es : List (Event Task)) (made : new Task num_threads max_pending ≡ ok p)
    (run : Run Task p es q) where
  pub made-IsQueued : IsQueued Task es p.max_pending_tasks q
  made-IsQueued =
      let (none_yet, on, _) = new_inv Task num_threads max_pending p made in
      Run-IsQueued Task p q es none_yet on run

  -- In any interleaving of callers and workers on a new pool, the accepted tasks are, in the order
  -- of acceptance, the started ones in the order of their start followed by the queue; the queue is
  -- never longer than the capacity, which never changes.
  pub first_in_first_out :
      (accepted_tasks Task es ≡ started_tasks Task es ++ q.tasks)
      × (get_pending_task_count Task q ≤ get_max_pending_task_count Task q)
      × (get_max_pending_task_count Task q ≡ get_max_pending_task_count Task p)
  unfolding get_pending_task_count get_max_pending_task_count
  first_in_first_out = let h = made-IsQueued in ground (arith, h)

  -- After any interleaving on a new pool, addTask throws that the pool is stopped when stop has
  -- been called, else that the queue is full when as many tasks as the capacity are accepted and
  -- not started, and else it puts the task at the end of the queue.
  pub add_task_lem :
      (task : Task)
      → add_task Task task q ≡ (
          if has_stop Task es
          then err PoolError.pool_stopped
          else if leb p.max_pending_tasks
              (length (accepted_tasks Task es) - length (started_tasks Task es))
          then err PoolError.queue_full
          else ok (record q { tasks = q.tasks ++ (task ∷ []) }))
  unfolding add_task
  add_task_lem task = let h = made-IsQueued in rw (h.stops, h.limited, waits) refl
    where
      waits : length (accepted_tasks Task es) - length (started_tasks Task es) ≡ length q.tasks
      waits =
          let h = made-IsQueued in
          omega (arith, ap length h.ordered, length-append (started_tasks Task es) q.tasks)
