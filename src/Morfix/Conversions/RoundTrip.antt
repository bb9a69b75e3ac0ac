-- ===== src/Morfix/Conversions/RoundTrip.antt =====
-- The two directions of src/morfix/src/conversions.cpp undo each other.
use cpp_demo_build.Prelude.{◌≡◌, refl, none, some}
use mathlib.Core.Option
use cpp_demo_build.Mor.Messages as mor
use cpp_demo_build.Morfix.Messages as fix
use cpp_demo_build.Morfix.Conversions.{to_fix_request, to_fix_event, to_mor_request, to_mor_event}

-- Every FIX-shaped request and event survives the way through the normalized messages.
pub fix_round_trip :
    ((r : fix.Request) → to_fix_request (to_mor_request r) ≡ some r)
    × ((e : fix.Event) → to_fix_event (to_mor_event e) ≡ some e)
unfolding to_fix_request to_mor_request to_fix_event to_mor_event
fix_round_trip = (request, event)
  where
    request : (r : fix.Request) → to_fix_request (to_mor_request r) ≡ some r
    request (fix.Request.new_order_single r) = refl
    request (fix.Request.order_cancel_replace_request r) = refl
    request (fix.Request.order_cancel_request r) = refl

    event : (e : fix.Event) → to_fix_event (to_mor_event e) ≡ some e
    event (fix.Event.execution_report e) = refl
    event (fix.Event.order_cancel_reject e) = refl

-- A normalized request that has a FIX shape is what that shape converts back to; only `flush` has
-- none.
pub request_shape :
    (r : mor.Request)
    → Option.map to_mor_request (to_fix_request r)
      ≡ elim r [ mor.Request.flush_request ↦ none | other ↦ some other ]
unfolding to_fix_request to_mor_request
request_shape (mor.Request.new_order_single r) = refl
request_shape (mor.Request.replace_request r) = refl
request_shape (mor.Request.cancel_request r) = refl
request_shape mor.Request.flush_request = refl

-- A normalized event that has a FIX shape is what that shape converts back to; only a parser reject
-- has none.
pub event_shape :
    (e : mor.Event)
    → Option.map to_mor_event (to_fix_event e)
      ≡ elim e [ mor.Event.parser_reject p ↦ none | other ↦ some other ]
unfolding to_fix_event to_mor_event
event_shape (mor.Event.execution_report e) = refl
event_shape (mor.Event.cancel_reject e) = refl
event_shape (mor.Event.parser_reject e) = refl
