-- ===== src/SecurityHandshake/Dialogue.antt =====
-- One end of a connection as the messages it sends and waits for, and two ends that talk to each
-- other over a connection that delivers (sendString and recvString).
use transfer_udt.Common.{Bool, true, false, Option, none, some, List, [], ◌∷◌}
use transfer_udt.Common.Bytes.{Bytes}
use transfer_udt.SecurityHandshake.Texts.{Result, ok, err}

-- sendString tells whether it has sent, recvString gives nothing when it fails.
pub data Dialogue (A : Type 0) : Type 0 where
  done : A → Dialogue A
  send : Bytes → (Bool → Dialogue A) → Dialogue A
  recv : (Option Bytes → Dialogue A) → Dialogue A

-- A call that may throw, and what its handler does.
abbrev pub attempt : {A B : Type 0} → Result A → Dialogue B → (A → Dialogue B) → Dialogue B
attempt (err e) handler next = handler
attempt (ok a) handler next = next a

-- Each message is received before the next is sent; `none` are two ends that wait for each other.
-- An end that is done has closed: nothing reaches it or comes from it.
unfoldable pub talk : {A B : Type 0} → Dialogue A → Dialogue B → Option (A × B)
talk (done a) (done b) = some (a, b)
talk (done a) (send message next) = talk (done a) (next false)
talk (done a) (recv next) = talk (done a) (next none)
talk (send message next) (done b) = talk (next false) (done b)
talk (recv next) (done b) = talk (next none) (done b)
talk (send message next) (recv next') = talk (next true) (next' (some message))
talk (recv next) (send message next') = talk (next (some message)) (next' true)
talk (send message next) (send message' next') = none
talk (recv next) (recv next') = none

-- What an end sees of its peer: whether it could send, and what it received.
pub data Event : Type 0 where
  sent : Bool → Event
  received : Option Bytes → Event

-- An end with any peer; `none` is a run that is not at its end, or not one of this end.
abbrev pub run : {A : Type 0} → Dialogue A → List Event → Option A
run (done a) [] = some a
run (send message next) (sent b ∷ events) = run (next b) events
run (recv next) (received r ∷ events) = run (next r) events
run _ _ = none
