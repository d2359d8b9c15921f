-- ===== src/UdtConnectionPool/Conserved.antt =====
-- The slots of the pool over a run (AgentUDTC++_v7.2/UDTConnectionPool.cpp).
use transfer_udt.Common.{
  ℕ, ◌≤◌, ◌≡◌, refl, sym, ap, ◌||◌, ◌∙◌, false, List, [], ◌∷◌, ◌++◌, length, Option, none, some,
  arith, length-append,
}
use transfer_udt.UdtConnectionPool.{
  UdtConnectionPool, Turn, timed_out, shut_down, keep_alive_wait, may_create, exhausted, pooled,
  new, acquire, handle_dead_connection, release, give_back, take_snapshot, count_in_flight, probe,
  pass_throws, return_survivors, begin_shutdown, finish_shutdown, is_empty,
}
use transfer_udt.UdtConnectionPool.Counts.{count, count-append}
use transfer_udt.UdtConnectionPool.Runs.{
  System, start, probed, places, turned, given_back, snapshot_taken, Step, turn, created,
  create_failed, create_throws, gives, releases, begins_pass, counts, probes, throws, ends_pass,
  shuts_down, finishes, Reach, here, next,
}
use transfer_udt.UdtConnectionPool.Slots.{slots, IsConserved, if-IsConserved, turn-IsConserved}
use transfer_udt.UdtConnectionPool.Moves.{
  gives-IsConserved, releases-IsConserved, snapshot_taken-IsConserved, probes-IsConserved,
  ends_pass-IsConserved,
}

Step-IsConserved : {s t : System} → Step s t → t.finished ≡ false → IsConserved s → IsConserved t
unfolding handle_dead_connection release give_back take_snapshot count_in_flight probe pass_throws
    return_survivors begin_shutdown finish_shutdown
Step-IsConserved {s = s} (turn connected) f h = turn-IsConserved s connected h
Step-IsConserved {s = s} (created c n e p) f h = record {
  sized = omega (arith, h.sized);
  bounded = h.bounded;
  single = λ x. ground (arith, h.single x);
}
Step-IsConserved {s = s} (create_failed n e) f h = record {
  sized = omega (arith, h.sized);
  bounded = omega (arith, h.bounded);
  single = h.single;
}
Step-IsConserved {s = s} (create_throws n e) f h = record {
  sized = omega (arith, h.sized);
  bounded = h.bounded;
  single = h.single;
}
Step-IsConserved {s = s} (gives connected c before after e) f h =
    gives-IsConserved s connected c before after e h
Step-IsConserved {s = s} (releases c before after e) f h = releases-IsConserved s c before after e h
Step-IsConserved {s = s} (begins_pass e) f h =
    if-IsConserved (snapshot_taken s)
      (s.pool.shutting_down || is_empty s.pool.available_connections) _ _
      (record { sized = h.sized; bounded = h.bounded; single = h.single })
      (snapshot_taken-IsConserved s s.pool.available_connections refl e h)
Step-IsConserved {s = s} (counts todo e) f h = record {
  sized = omega (arith, h.sized, ap (λ k. length (probed k)) e, length-append todo []);
  bounded = h.bounded;
  single = λ x. omega (arith, h.single x, ap (λ k. count x (probed k)) e, count-append x todo []);
}
Step-IsConserved {s = s} (probes alive c todo survivors e) f h =
    probes-IsConserved s alive c todo survivors e h
Step-IsConserved {s = s} (throws c todo survivors e) f h = record {
  sized = omega (arith, h.sized, ap (λ k. length (probed k)) e, length-append todo survivors);
  bounded = h.bounded;
  single = λ x. omega (arith, h.single x);
}
Step-IsConserved {s = s} (ends_pass survivors e) f h = ends_pass-IsConserved s survivors e h
Step-IsConserved {s = s} shuts_down f h = record {
  sized = h.sized;
  bounded = h.bounded;
  single = h.single;
}
Step-IsConserved {s = s} (finishes d e) f h = absurd (ground (arith, f))

turned-finished : (s : System) (r : Turn × UdtConnectionPool) → (turned s r).finished ≡ s.finished
turned-finished s (pooled c, p) = refl
turned-finished s (timed_out, p) = refl
turned-finished s (shut_down, p) = refl
turned-finished s (keep_alive_wait, p) = refl
turned-finished s (may_create, p) = refl
turned-finished s (exhausted, p) = refl

given_back-finished :
    (s : System) (rest : List ℕ) (c : ℕ) (r : Option UdtConnectionPool)
    → (given_back s rest c r).finished ≡ s.finished
given_back-finished s rest c none = refl
given_back-finished s rest c (some p) = refl

snapshot_taken-finished :
    (s : System) (r : List ℕ × UdtConnectionPool) → (snapshot_taken s r).finished ≡ s.finished
snapshot_taken-finished s ([], p) = refl
snapshot_taken-finished s (c ∷ todo, p) = refl

Step-finished : {s t : System} → Step s t → t.finished ≡ false → s.finished ≡ false
Step-finished {s = s} (turn connected) f = sym (turned-finished s (acquire connected s.pool)) ∙ f
Step-finished (created c n e p) f = f
Step-finished (create_failed n e) f = f
Step-finished (create_throws n e) f = f
Step-finished {s = s} (gives connected c before after e) f =
    sym (given_back-finished s (before ++ after) c (give_back connected c s.pool)) ∙ f
Step-finished (releases c before after e) f = f
Step-finished {s = s} (begins_pass e) f = sym (snapshot_taken-finished s (take_snapshot s.pool)) ∙ f
Step-finished (counts todo e) f = f
Step-finished (probes alive c todo survivors e) f = f
Step-finished (throws c todo survivors e) f = f
Step-finished (ends_pass survivors e) f = f
Step-finished shuts_down f = f
Step-finished (finishes d e) f = absurd (ground (arith, f))

pub Reach-IsConserved :
    (m : ℕ) {s : System} → Reach (start m) s → s.finished ≡ false → IsConserved s
unfolding new
Reach-IsConserved m here f = record {
  sized = refl;
  bounded = omega arith;
  single = λ c. omega arith;
}
Reach-IsConserved m (next r st) f =
    Step-IsConserved st f (Reach-IsConserved m r (Step-finished st f))

-- Until a shutdown has finished, whatever the clients, the keep-alive thread and the shutdown did
-- and in whatever order: the size of the pool counts exactly its idle connections, those that
-- clients hold, that are being made, that are on their way back and that the keep-alive thread has
-- taken, and the slots that an exception left behind; it never exceeds the maximum; and no connection is
-- in two of these places or twice in one, so that no two clients share it.
pub size_conserved :
    (m : ℕ) {s : System}
    → Reach (start m) s
    → s.finished ≡ false
    → (s.pool.current_size ≡ slots s)
      × (s.pool.current_size ≤ s.pool.max_size)
      × ((c : ℕ) → places c s ≤ 1)
size_conserved m r f = let h = Reach-IsConserved m r f in (h.sized, h.bounded, h.single)
