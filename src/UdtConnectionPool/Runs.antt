-- ===== src/UdtConnectionPool/Runs.antt =====
-- The interleavings of clients, the keep-alive thread and shutdown
-- (AgentUDTC++_v7.2/UDTConnectionPool.cpp).
use transfer_udt.Common.{
  ℕ, suc, ◌+◌, ◌≡◌, Bool, true, false, List, [], ◌∷◌, ◌++◌, length, Option, none, some,
}
use transfer_udt.UdtConnectionPool.{
  UdtConnectionPool, Turn, pooled, may_create, new, one_less, acquire, release, give_back,
  take_snapshot, count_in_flight, probe, pass_throws, return_survivors, begin_shutdown,
  finish_shutdown,
}
use transfer_udt.UdtConnectionPool.Counts.{count}

-- Where the keep-alive thread stands: between passes, with a snapshot that is not counted yet, or
-- with what is left of it and the survivors.
pub data KeepAlive : Type 0 where
  asleep : KeepAlive
  taken : List ℕ → KeepAlive
  probing : List ℕ → List ℕ → KeepAlive

-- The pool with those who hold its connections: clients, threads within _createConnection, threads
-- on their way into release. `lost` counts the slots that an exception of a keep-alive
-- pass or of _createConnection left behind.
pub record System : Type 0 where
  pub pool : UdtConnectionPool
  pub held : List ℕ
  pub creating : ℕ
  pub returning : List ℕ
  pub keep_alive : KeepAlive
  pub lost : ℕ
  pub finished : Bool

abbrev pub start : ℕ → System
start max_size = record {
  pool = new max_size;
  held = [];
  creating = 0;
  returning = [];
  keep_alive = asleep;
  lost = 0;
  finished = false;
}

abbrev pub probed : KeepAlive → List ℕ
probed asleep = []
probed (taken todo) = todo
probed (probing todo survivors) = todo ++ survivors

-- In how many places a connection is.
abbrev pub places : ℕ → System → ℕ
places c s =
    count c s.pool.available_connections
    + count c s.held
    + count c s.returning
    + count c (probed s.keep_alive)

abbrev pub turned : System → Turn × UdtConnectionPool → System
turned s (pooled c, p) = record s { pool = p; held = c ∷ s.held }
turned s (may_create, p) = record s { pool = p; creating = s.creating + 1 }
turned s (_, p) = record s { pool = p }

abbrev pub given_back : System → List ℕ → ℕ → Option UdtConnectionPool → System
given_back s rest c none = record s { held = rest; returning = c ∷ s.returning }
given_back s rest c (some p) = record s { held = rest; pool = p }

abbrev pub snapshot_taken : System → List ℕ × UdtConnectionPool → System
snapshot_taken s ([], p) = record s { pool = p }
snapshot_taken s (c ∷ todo, p) = record s { pool = p; keep_alive = taken (c ∷ todo) }

abbrev pub survived : Bool → ℕ → List ℕ → List ℕ
survived true c survivors = survivors ++ (c ∷ [])
survived false c survivors = survivors

-- One step of any thread. A new connection is one that is nowhere yet.
pub data Step (s : System) : System → Type 0 where
  turn : (connected : ℕ → Bool) → Step s (turned s (acquire connected s.pool))
  created :
      (c n : ℕ)
      → s.creating ≡ suc n
      → places c s ≡ 0
      → Step s (record s { creating = n; held = c ∷ s.held })
  create_failed :
      (n : ℕ) → s.creating ≡ suc n → Step s (record s { creating = n; pool = one_less s.pool })
  create_throws :
      (n : ℕ) → s.creating ≡ suc n → Step s (record s { creating = n; lost = s.lost + 1 })
  gives :
      (connected : ℕ → Bool) (c : ℕ) (before after : List ℕ)
      → s.held ≡ before ++ (c ∷ after)
      → Step s (given_back s (before ++ after) c (give_back connected c s.pool))
  releases :
      (c : ℕ) (before after : List ℕ)
      → s.returning ≡ before ++ (c ∷ after)
      → Step s (record s { returning = before ++ after; pool = release c s.pool })
  begins_pass : s.keep_alive ≡ asleep → Step s (snapshot_taken s (take_snapshot s.pool))
  counts :
      (todo : List ℕ)
      → s.keep_alive ≡ taken todo
      → Step s
          (record s { keep_alive = probing todo []; pool = count_in_flight (length todo) s.pool })
  probes :
      (alive : Bool) (c : ℕ) (todo survivors : List ℕ)
      → s.keep_alive ≡ probing (c ∷ todo) survivors
      → Step s (record s {
        keep_alive = probing todo (survived alive c survivors);
        pool = probe alive s.pool;
      })
  throws :
      (c : ℕ) (todo survivors : List ℕ)
      → s.keep_alive ≡ probing (c ∷ todo) survivors
      → Step s (record s {
        keep_alive = asleep;
        pool = pass_throws (suc (length todo)) s.pool;
        lost = s.lost + suc (length todo) + length survivors;
      })
  ends_pass :
      (survivors : List ℕ)
      → s.keep_alive ≡ probing [] survivors
      → Step s (record s { keep_alive = asleep; pool = return_survivors survivors s.pool })
  shuts_down : Step s (record s { pool = begin_shutdown s.pool })
  finishes :
      s.pool.shutting_down ≡ true
      → s.keep_alive ≡ asleep
      → Step s (record s { pool = finish_shutdown s.pool; finished = true })

pub data Reach (s : System) : System → Type 0 where
  here : Reach s s
  next : {t u : System} → Reach s t → Step t u → Reach s u
