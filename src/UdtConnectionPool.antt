-- ===== src/UdtConnectionPool.antt =====
-- The pool of connections to a server (AgentUDTC++_v7.2/UDTConnectionPool.cpp). A connection is a
-- number; whether the UDT library shows it as connected is an argument of each operation, as is what
-- _createConnection gives. The mutex makes each critical section one operation. No null pointer is
-- ever put into the queue, so it has none; logging is left out.
use transfer_udt.Common.{
  ℕ, zero, suc, ◌+◌, ◌-◌, Bool, true, false, not, ◌&&◌, ◌||◌, List, [], ◌∷◌, ◌++◌, length, ltb, leb,
  ◌==◌, if◌then◌else◌, Option, none, some, max,
}
pub mod Runs
pub mod CreateConnection
pub mod Counts
mod Slots
mod Moves
mod Conserved
mod Serves
mod Tests

pub record UdtConnectionPool : Type 0 where
  pub max_size : ℕ
  pub current_size : ℕ
  pub available_connections : List ℕ
  pub shutting_down : Bool
  pub keep_alive_in_flight : ℕ

unfoldable pub new : ℕ → UdtConnectionPool
new max_size = record {
  max_size = max max_size 1;
  current_size = 0;
  available_connections = [];
  shutting_down = false;
  keep_alive_in_flight = 0;
}

abbrev pub is_empty : List ℕ → Bool
is_empty [] = true
is_empty (c ∷ rest) = false

-- if (current_size_ > 0) current_size_--
abbrev pub one_less : UdtConnectionPool → UdtConnectionPool
one_less p = record p { current_size = p.current_size - 1 }

-- What a turn of acquire's loop ends in.
pub data Turn : Type 0 where
  timed_out shut_down keep_alive_wait may_create exhausted : Turn
  pooled : ℕ → Turn

-- The predicate of the first wait.
abbrev pub can_go_on : UdtConnectionPool → Bool
can_go_on p =
    p.shutting_down || not (is_empty p.available_connections) || ltb p.current_size p.max_size

-- The inner loop: the first connection that is connected, the rest of the queue and the size.
unfoldable pub pop_connected : (ℕ → Bool) → List ℕ → ℕ → Option ℕ × List ℕ × ℕ
pop_connected connected [] size = (none, [], size)
pop_connected connected (c ∷ rest) size =
    if connected c then (some c, rest, size) else pop_connected connected rest (size - 1)

-- What follows it, in the order of the code.
abbrev pub after_pop : UdtConnectionPool → Option ℕ × List ℕ × ℕ → Turn × UdtConnectionPool
after_pop p (some c, rest, size) =
    (pooled c, record p { available_connections = rest; current_size = size })
after_pop p (none, rest, size) =
    let emptied = record p { available_connections = rest; current_size = size } in
    if ltb 0 p.keep_alive_in_flight
    then (keep_alive_wait, emptied)
    else if ltb size p.max_size
    then (may_create, record emptied { current_size = size + 1 })
    else (exhausted, emptied)

-- A turn under the lock. A wait whose predicate does not hold ends by its timeout.
unfoldable pub acquire : (ℕ → Bool) → UdtConnectionPool → Turn × UdtConnectionPool
acquire connected p =
    if not (can_go_on p)
    then (timed_out, p)
    else if p.shutting_down
    then (shut_down, p)
    else after_pop p (pop_connected connected p.available_connections p.current_size)

unfoldable pub handle_dead_connection : UdtConnectionPool → UdtConnectionPool
handle_dead_connection p = one_less p

-- The part of release under the lock; before it the flag was read as false.
unfoldable pub release : ℕ → UdtConnectionPool → UdtConnectionPool
release c p =
    if leb p.current_size p.max_size
    then record p { available_connections = p.available_connections ++ (c ∷ []) }
    else one_less p

-- PooledUDTConnection::release, up to that lock: `none` is a connection on its way to release.
unfoldable pub give_back : (ℕ → Bool) → ℕ → UdtConnectionPool → Option UdtConnectionPool
give_back connected c p =
    if connected c && not p.shutting_down then none else some (handle_dead_connection p)

-- performKeepAlivePass: the queue is taken out,
unfoldable pub take_snapshot : UdtConnectionPool → List ℕ × UdtConnectionPool
take_snapshot p =
    if p.shutting_down || is_empty p.available_connections
    then ([], p)
    else (p.available_connections, record p { available_connections = [] })

unfoldable pub count_in_flight : ℕ → UdtConnectionPool → UdtConnectionPool
count_in_flight n p = record p { keep_alive_in_flight = p.keep_alive_in_flight + n }

-- each connection is probed (`alive`: it is connected and the payload was sent),
unfoldable pub probe : Bool → UdtConnectionPool → UdtConnectionPool
probe alive p =
    let settled = if alive then p else handle_dead_connection p in
    record settled { keep_alive_in_flight = settled.keep_alive_in_flight - 1 }

-- a pass that throws forgets the rest of the snapshot and its survivors,
unfoldable pub pass_throws : ℕ → UdtConnectionPool → UdtConnectionPool
pass_throws rest p = record p { keep_alive_in_flight = p.keep_alive_in_flight - rest }

abbrev pub dead : List ℕ → UdtConnectionPool → UdtConnectionPool
dead [] p = p
dead (c ∷ rest) p = dead rest (handle_dead_connection p)

-- and the survivors come back, unless the pool is shutting down.
unfoldable pub return_survivors : List ℕ → UdtConnectionPool → UdtConnectionPool
return_survivors survivors p =
    if p.shutting_down
    then dead survivors p
    else record p { available_connections = p.available_connections ++ survivors }

-- shutdown: the flag, and after the join of the keep-alive thread the queue.
unfoldable pub begin_shutdown : UdtConnectionPool → UdtConnectionPool
begin_shutdown p = record p { shutting_down = true }

unfoldable pub finish_shutdown : UdtConnectionPool → UdtConnectionPool
finish_shutdown p = record p { available_connections = []; current_size = 0 }

unfoldable pub get_available_count : UdtConnectionPool → ℕ
get_available_count p = length p.available_connections

unfoldable pub get_current_size : UdtConnectionPool → ℕ
get_current_size p = p.current_size
