-- ===== src/ThreadPool/Tests.antt =====
-- The theorems on the pool of TransferCore/ThreadPool.cpp, at a run of one worker and one task.
use transfer_udt.Common.{ℕ, ◌+◌, ◌⊎◌, ◌≤◌, ◌≡◌, refl, Bool, true, false, List, [], ◌∷◌}
use transfer_udt.ThreadPool.{
  ThreadPool, PoolError, ok, err, Worker, waiting, running, exited, takes, finishes, exits, new,
  add_task, notify_all, begin_stop, clear_workers, worker_thread, get_pending_task_count,
  get_max_pending_task_count,
}
use transfer_udt.ThreadPool.Runs.{
  Event, accepted, started, finished, stop_called, worker_exited, stop_returned, Run, begin,
  then_step, add, call_stop, work, join,
}
use transfer_udt.ThreadPool.Order.{first_in_first_out, add_task_lem}
use transfer_udt.ThreadPool.Counts.{count}
use transfer_udt.ThreadPool.Drain.{stop_completes}
use transfer_udt.ThreadPool.Progress.{
  WorkStep, moves, WorkRun, at_rest, works, IsDone, stop_terminates,
}

abbrev pool : List (Worker ℕ) → List ℕ → Bool → ThreadPool ℕ
pool workers tasks stopped = record {
  workers = workers;
  tasks = tasks;
  max_pending_tasks = 4;
  stopped = stopped;
}

abbrev idle : ThreadPool ℕ
idle = pool (waiting ∷ []) [] false

made : new ℕ 1 4 ≡ ok idle
unfolding new
made = refl

-- Task 7 is accepted and stop is called.
abbrev two_events : List (Event ℕ)
two_events = stop_called ∷ accepted 7 ∷ []

abbrev stopping : ThreadPool ℕ
stopping = pool (waiting ∷ []) (7 ∷ []) true

two_events-Run : Run ℕ idle two_events stopping
unfolding add_task begin_stop notify_all
two_events-Run =
    then_step (then_step begin (add {q = pool (waiting ∷ []) (7 ∷ []) false} refl))
      (call_stop {q = stopping} refl)

-- The worker takes it, finishes it and returns.
abbrev five_events : List (Event ℕ)
five_events = worker_exited ∷ finished 7 ∷ started 7 ∷ two_events

abbrev all_events : List (Event ℕ)
all_events = stop_returned ∷ five_events

five_events-Run : Run ℕ idle five_events (pool (exited ∷ []) [] true)
unfolding worker_thread
five_events-Run =
    then_step
      (then_step (then_step two_events-Run (work [] [] waiting (takes 7 []) refl refl))
        (work [] [] (running 7) (finishes 7) refl refl))
      (work [] [] waiting exits refl refl)

all_events-Run : Run ℕ idle all_events (pool [] [] true)
unfolding clear_workers
all_events-Run = then_step five_events-Run (join refl (tt, tt))

first_in_first_out_example :
    (◌≡◌ {A = List ℕ} (7 ∷ []) (7 ∷ []))
    × (get_pending_task_count ℕ stopping ≤ get_max_pending_task_count ℕ stopping)
    × (get_max_pending_task_count ℕ stopping ≡ get_max_pending_task_count ℕ idle)
first_in_first_out_example = first_in_first_out ℕ 1 4 idle stopping two_events made two_events-Run

add_task_lem_example : add_task ℕ 8 stopping ≡ err PoolError.pool_stopped
add_task_lem_example = add_task_lem ℕ 1 4 idle stopping two_events made two_events-Run 8

stop_completes_example :
    (◌≡◌ {A = List ℕ} [] [])
    × (◌≡◌ {A = List (Worker ℕ)} [] [])
    × ((test : ℕ → Bool) → count ℕ test (7 ∷ []) ≡ count ℕ test (7 ∷ []))
stop_completes_example = stop_completes ℕ 1 4 idle (pool [] [] true) five_events made all_events-Run

-- The worker has taken the task.
one_step : WorkRun ℕ stopping 1 (pool (running 7 ∷ []) [] true)
unfolding worker_thread
one_step = works at_rest (moves [] [] waiting (takes 7 []) refl refl)

stop_terminates_example :
    (1 + 2 ≡ 3)
    × (IsDone ℕ (pool (running 7 ∷ []) [] true)
        ⊎ ((next : ThreadPool ℕ) × WorkStep ℕ (pool (running 7 ∷ []) [] true) next))
stop_terminates_example =
    stop_terminates ℕ 1 4 idle stopping (pool (running 7 ∷ []) [] true) two_events 1 made
      two_events-Run refl one_step
