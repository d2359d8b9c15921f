-- ===== src/UdtConnectionPool/Tests.antt =====
-- Runs of the pool, with the theorems applied to them (AgentUDTC++_v7.2/UDTConnectionPool.cpp).
use transfer_udt.Common.{ℕ, ◌≤◌, ◌≡◌, refl, Bool, true, false, [], ◌∷◌}
use transfer_udt.UdtConnectionPool.{
  UdtConnectionPool, timed_out, new, acquire, release, give_back, take_snapshot, pop_connected,
  handle_dead_connection, count_in_flight, probe, pass_throws, return_survivors, begin_shutdown,
  finish_shutdown, get_available_count, get_current_size,
}
use transfer_udt.UdtConnectionPool.Runs.{
  asleep, System, start, places, turn, created, gives, releases, Reach, here, next,
}
use transfer_udt.UdtConnectionPool.Slots.{slots}
use transfer_udt.UdtConnectionPool.Conserved.{size_conserved}
use transfer_udt.UdtConnectionPool.Serves.{acquire-serves, serves}

abbrev all_up : ℕ → Bool
all_up c = true

-- A pool for two connections, with connection 7 idle and 8 in use.
abbrev two_made : System
two_made = record {
  pool = record {
    max_size = 2;
    current_size = 2;
    available_connections = 7 ∷ [];
    shutting_down = false;
    keep_alive_in_flight = 0;
  };
  held = 8 ∷ [];
  creating = 0;
  returning = [];
  keep_alive = asleep;
  lost = 0;
  finished = false;
}

two_made-Reach : Reach (start 2) two_made
unfolding new acquire release give_back pop_connected
two_made-Reach =
    next
      (next
        (next (next (next (next here (turn all_up)) (turn all_up)) (created 7 1 refl refl))
          (created 8 0 refl refl))
        (gives all_up 7 (8 ∷ []) [] refl))
      (releases 7 [] [] refl)

size_conserved_example : (2 ≡ slots two_made) × (2 ≤ 2) × ((c : ℕ) → places c two_made ≤ 1)
size_conserved_example = size_conserved 2 two_made-Reach refl

acquire-serves_example : serves all_up (acquire all_up two_made.pool).0 ≡ true
acquire-serves_example = acquire-serves 2 all_up two_made-Reach refl refl refl refl

-- A pass that throws at the first connection: its slot is never free again.
abbrev forgotten : UdtConnectionPool
forgotten = pass_throws 1 (count_in_flight 1 (take_snapshot (two_made.pool)).1)

forgotten_slot : (forgotten.current_size ≡ 2) × (forgotten.available_connections ≡ [])
unfolding take_snapshot count_in_flight pass_throws
forgotten_slot = (refl, refl)

-- Only one of the two slots is in use, and a request finds the pool full.
full : (acquire all_up forgotten).0 ≡ timed_out
unfolding acquire take_snapshot count_in_flight pass_throws
full = refl

-- A connection on its way back when the pool is shut down ends up in its queue, in no slot.
abbrev revived : UdtConnectionPool
revived = release 8 (finish_shutdown (begin_shutdown two_made.pool))

revived_open : (get_available_count revived ≡ 1) × (get_current_size revived ≡ 0)
unfolding release finish_shutdown begin_shutdown get_available_count get_current_size
revived_open = (refl, refl)

probed_dead : get_current_size (probe false two_made.pool) ≡ 1
unfolding probe get_current_size handle_dead_connection
probed_dead = refl

survivors_back : get_available_count (return_survivors (9 ∷ []) two_made.pool) ≡ 2
unfolding return_survivors get_available_count
survivors_back = refl
