-- ===== src/Mor/Conversions/RoundTrip.antt =====
-- The two directions of src/mor/src/conversions.cpp undo each other.
use cpp_demo_build.Prelude.{◌≡◌, refl}
use cpp_demo_build.OrderEntry.Messages as oe
use cpp_demo_build.Mor.Messages as mor
use cpp_demo_build.Mor.Conversions.{
  to_mor_request, to_order_entry_request, to_mor_event, to_mor_execution_report,
  to_mor_cancel_reject, to_order_entry_execution_report, to_order_entry_cancel_reject,
  to_mor_rejection, to_order_entry_parser_reject,
}

-- Routing a request through the normalized messages gives it back, and so does the way round.
pub request_round_trip :
    ((r : oe.Request) → to_order_entry_request (to_mor_request r) ≡ r)
    × ((r : mor.Request) → to_mor_request (to_order_entry_request r) ≡ r)
unfolding to_mor_request to_order_entry_request
request_round_trip = (there, back)
  where
    there : (r : oe.Request) → to_order_entry_request (to_mor_request r) ≡ r
    there (oe.Request.new_order_single r) = refl
    there (oe.Request.replace_order r) = refl
    there (oe.Request.cancel_order r) = refl
    there oe.Request.flush = refl

    back : (r : mor.Request) → to_mor_request (to_order_entry_request r) ≡ r
    back (mor.Request.new_order_single r) = refl
    back (mor.Request.replace_request r) = refl
    back (mor.Request.cancel_request r) = refl
    back mor.Request.flush_request = refl

-- What the engine emits survives the way through the normalized events and back, and so does a
-- rejection of the order-entry session; the reports keep their kind.
pub event_round_trip :
    ((r : oe.ExecutionReport)
      → (to_mor_event (oe.Event.execution_report r)
          ≡ mor.Event.execution_report (to_mor_execution_report r))
        × (to_order_entry_execution_report (to_mor_execution_report r) ≡ r))
    × ((r : oe.CancelReject)
        → (to_mor_event (oe.Event.cancel_reject r)
            ≡ mor.Event.cancel_reject (to_mor_cancel_reject r))
          × (to_order_entry_cancel_reject (to_mor_cancel_reject r) ≡ r))
    × ((r : oe.Rejection) → to_order_entry_parser_reject (to_mor_rejection r) ≡ r)
unfolding to_mor_event to_order_entry_execution_report to_order_entry_cancel_reject
    to_order_entry_parser_reject to_mor_rejection
event_round_trip = (λ r. (refl, refl), λ r. (refl, refl), λ r. refl)
