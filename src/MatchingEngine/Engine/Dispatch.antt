-- ===== src/MatchingEngine/Engine/Dispatch.antt =====
-- src/matching_engine/src/engine.cpp: cancel, replace, flush and `send`.
pub mod Resting
pub mod Cancelled
pub mod Flush
pub mod Sound
pub mod Reachable
pub mod Keeps
pub mod Numbered
pub mod Replaced
use cpp_demo_build.Prelude.{Option, none, some, List, [], ◌∷◌, codes, if◌then◌else◌}
use cpp_demo_build.OrderEntry.Types.{ExecType, OrdStatus, RejectReason}
use cpp_demo_build.OrderEntry.Messages.{
  NewOrderSingle, ReplaceOrder, CancelOrder, Request, new_order_single, replace_order, cancel_order,
  flush,
}
use cpp_demo_build.MatchingEngine.Types.{OrderKey, OrderNode}
use cpp_demo_build.MatchingEngine.Outcome.{Outcome, done, fault, front_of_empty, ◌>>=◌}
use cpp_demo_build.MatchingEngine.Book.{SideMap, empty_book}
use cpp_demo_build.MatchingEngine.Engine.{
  Pool, Engine, Books, index_find, is_some, deref, emit_execution_report, emit_cancel_reject,
  emit_mbo_book_update, on_release,
}
use cpp_demo_build.MatchingEngine.Engine.Handlers.{
  EngineError, duplicate_order, unknown_symbol, handle_new_order_single,
  handle_new_order_single_impl, remove_resting, affects_top,
}

-- The key of the order that a request names by `orig_cl_ord_id`.
abbrev pub orig_key : CancelOrder → OrderKey
orig_key incoming = record { client_id = incoming.client_id; cl_ord_id = incoming.orig_cl_ord_id }

abbrev pub as_cancel : ReplaceOrder → CancelOrder
as_cancel incoming = record {
  client_id = incoming.client_id;
  cl_ord_id = incoming.cl_ord_id;
  orig_cl_ord_id = incoming.orig_cl_ord_id;
}

abbrev pub new_key : ReplaceOrder → OrderKey
new_key incoming = record { client_id = incoming.client_id; cl_ord_id = incoming.cl_ord_id }

abbrev pub replacement : ReplaceOrder → NewOrderSingle
replacement incoming = record {
  client_id = incoming.client_id;
  cl_ord_id = incoming.cl_ord_id;
  security_id = incoming.security_id;
  symbol = incoming.symbol;
  security_exchange = incoming.security_exchange;
  side = incoming.side;
  ord_type = incoming.ord_type;
  time_in_force = incoming.time_in_force;
  order_qty = incoming.order_qty;
  price = incoming.price;
}

-- `handle(cancel_order)` for an order that the index holds.
unfoldable pub cancel_resting : Engine → CancelOrder → OrderNode → Outcome Engine
cancel_resting e incoming node =
    let affects_mbo_book_update = affects_top e node.order in
    do
      (book, e1) ← remove_resting e (orig_key incoming) node
      let e2 =
          emit_execution_report e1 node.order ExecType.canceled OrdStatus.canceled
            (some incoming.orig_cl_ord_id) none none
      done (
          if affects_mbo_book_update
          then emit_mbo_book_update e2 book node.side node.security_id
          else e2)

unfoldable pub handle_cancel_order : Engine → CancelOrder → Outcome Engine
handle_cancel_order e incoming = elim (index_find (orig_key incoming) e.resting_index) [
  | none ↦ done (emit_cancel_reject e incoming RejectReason.unknown_order (codes "unknown order"))
  | some a ↦ (do node ← deref e a; cancel_resting e incoming node)
]

unfoldable pub reject_replacement : Engine → ReplaceOrder → Option EngineError → Engine
reject_replacement e incoming none = e
reject_replacement e incoming (some (duplicate_order client_id cl_ord_id)) =
    emit_cancel_reject e (as_cancel incoming) RejectReason.duplicate_order
      (codes "duplicate cl_ord_id")
reject_replacement e incoming (some (unknown_symbol symbol)) =
    emit_cancel_reject e (as_cancel incoming) RejectReason.unknown_symbol (codes "unknown symbol")

-- Drops every order of a FIFO.
unfoldable pub drain_orders : Engine → List OrderNode → Engine
drain_orders e [] = e
drain_orders e (n ∷ ns) = drain_orders (on_release n e) ns

-- `drain_side` looks at the front of each level without a test.
unfoldable pub drain_side : Engine → SideMap → Outcome Engine
drain_side e [] = done e
drain_side e (l ∷ ls) = elim l.orders [
  | [] ↦ fault front_of_empty
  | _ ∷ _ ↦ drain_side (drain_orders e l.orders) ls
]

-- The sides end empty and the books stay.
unfoldable pub flush_books : Engine → Books → Outcome (Engine × Books)
flush_books e [] = done (e, [])
flush_books e ((symbol, b) ∷ rest) = do
  e1 ← drain_side e b.bids
  e2 ← drain_side e1 b.asks
  (e3, rest') ← flush_books e2 rest
  done (e3, (symbol, empty_book) ∷ rest')

unfoldable pub handle_flush : Engine → Outcome Engine
handle_flush e = do (e', books) ← flush_books e e.books; done (record e' { books = books })

module _ (pool : Pool) where
  -- `handle(replace_order)` for an original that the index holds and a new identity that it does not.
  unfoldable pub replace_resting : Engine → ReplaceOrder → OrderNode → Outcome Engine
  unfolding reject_replacement
  replace_resting e incoming node =
      let affects_mbo_book_update = affects_top e node.order in
      do
        (book, e1) ← remove_resting e (orig_key (as_cancel incoming)) node
        let e2 =
            if affects_mbo_book_update
            then emit_mbo_book_update e1 book node.side node.security_id
            else e1
        (error, e3) ← handle_new_order_single_impl pool e2 (replacement incoming)
        done (reject_replacement e3 incoming error)

  unfoldable pub handle_replace_order : Engine → ReplaceOrder → Outcome Engine
  handle_replace_order e incoming =
      elim (index_find (orig_key (as_cancel incoming)) e.resting_index) [
        | none ↦ done (
            emit_cancel_reject e (as_cancel incoming) RejectReason.unknown_order
              (codes "unknown order"))
        | some a ↦
            if is_some (index_find (new_key incoming) e.resting_index)
            then done (
                emit_cancel_reject e (as_cancel incoming) RejectReason.duplicate_order
                  (codes "duplicate cl_ord_id"))
            else (do node ← deref e a; replace_resting e incoming node)
      ]

  unfoldable pub send : Engine → Request → Outcome Engine
  send e (new_order_single request) = handle_new_order_single pool e request
  send e (replace_order incoming) = handle_replace_order e incoming
  send e (cancel_order incoming) = handle_cancel_order e incoming
  send e flush = handle_flush e

  -- The engine after a sequence of requests.
  unfoldable pub send_all : Engine → List Request → Outcome Engine
  send_all e [] = done e
  send_all e (r ∷ rs) = do e' ← send e r; send_all e' rs
