-- ===== src/QuickfixFix/Session.antt =====
-- src/quickfix_fix/{quickfix_fix/session.hpp,src/session.cpp}: the in-memory session and the pair. The
-- two sessions of a pair stand at its two ends; a peer pointer names an end.
use cpp_demo_build.Prelude.{
  ◌≡◌, refl, Bool, true, false, Option, none, some, List, [], ◌∷◌, ◌++◌, Bytes, if◌then◌else◌,
}
use cpp_demo_build.Prelude.Result.{Result, ok, err, not_connected}
use cpp_demo_build.QuickfixFix.Message.{Message}

pub data End : Type 0 where
  initiator_end acceptor_end : End

abbrev pub other_end : End → End
other_end initiator_end = acceptor_end
other_end acceptor_end = initiator_end

-- The callbacks may be empty; what the set ones were called with is kept in the order of the calls.
pub record MemorySession : Type 0 where
  pub peer : Option End
  pub has_on_message : Bool
  pub has_on_reject : Bool
  pub messages : List Message
  pub rejects : List Bytes

pub record SessionPair : Type 0 where
  pub initiator : MemorySession
  pub acceptor : MemorySession

abbrev pub session_at : SessionPair → End → MemorySession
session_at p initiator_end = p.initiator
session_at p acceptor_end = p.acceptor

abbrev pub set_session : End → MemorySession → SessionPair → SessionPair
set_session initiator_end s p = record p { initiator = s }
set_session acceptor_end s p = record p { acceptor = s }

unfoldable pub connect : End → End → SessionPair → SessionPair
connect e peer p = set_session e (record (session_at p e) { peer = some peer }) p

unfoldable pub receive : MemorySession → Message → MemorySession
receive s message =
    if s.has_on_message then record s { messages = s.messages ++ message ∷ [] } else s

unfoldable pub receive_reject : MemorySession → Bytes → MemorySession
receive_reject s reason =
    if s.has_on_reject then record s { rejects = s.rejects ++ reason ∷ [] } else s

unfoldable pub send_message : End → Message → SessionPair → Result {0} Unit × SessionPair
send_message e message p = elim (session_at p e).peer [
  | none ↦ (err not_connected, p)
  | some peer ↦ (ok tt, set_session peer (receive (session_at p peer) message) p)
]

abbrev new_session : MemorySession
new_session = record {
  peer = none;
  has_on_message = false;
  has_on_reject = false;
  messages = [];
  rejects = [];
}

-- The constructor.
unfoldable pub session_pair : SessionPair
unfolding connect
session_pair = connect acceptor_end initiator_end (
    connect initiator_end acceptor_end (record { initiator = new_session; acceptor = new_session }))

-- Whoever wires the callbacks of an end.
abbrev pub listening : End → SessionPair → SessionPair
listening e p = set_session e (record (session_at p e) { has_on_message = true }) p

-- Two messages sent from an end of a new pair whose other end listens are both delivered, in their
-- order, to the other end, and nothing is delivered to the end that sent them.
pub send_message-twice :
    (e : End) (first second : Message)
    → (let (r1, p1) = send_message e first (listening (other_end e) session_pair) in
        let (r2, p2) = send_message e second p1 in
        (r1 ≡ ok tt)
        × (r2 ≡ ok tt)
        × ((session_at p2 (other_end e)).messages ≡ first ∷ second ∷ [])
        × ((session_at p2 e).messages ≡ []))
unfolding send_message session_pair receive connect
send_message-twice initiator_end first second = (refl, refl, refl, refl)
send_message-twice acceptor_end first second = (refl, refl, refl, refl)
