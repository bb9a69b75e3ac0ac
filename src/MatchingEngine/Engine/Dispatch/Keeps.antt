-- ===== src/MatchingEngine/Engine/Dispatch/Keeps.antt =====
-- What every step of the engine keeps, every request keeps.
use cpp_demo_build.Prelude.{
  Bool, true, false, Option, none, some, List, [], ◌∷◌, if◌then◌else◌, codes, All,
}
use cpp_demo_build.OrderEntry.Types.{ExecType, OrdStatus, RejectReason}
use cpp_demo_build.OrderEntry.Messages.{
  ReplaceOrder, CancelOrder, Request, new_order_single, replace_order, cancel_order, flush,
}
use cpp_demo_build.MatchingEngine.Types.{Address, OrderKey, OrderNode}
use cpp_demo_build.MatchingEngine.Outcome.{
  done, fault, front_of_empty, IfDone, IfDone-bind, IfDone-bind_any, ◌>>=◌,
}
use cpp_demo_build.MatchingEngine.Book.{SideMap}
use cpp_demo_build.MatchingEngine.Engine.{
  Pool, Engine, Books, index_find, is_some, deref, emit_mbo_book_update, emit_cancel_reject,
  on_release,
}
use cpp_demo_build.MatchingEngine.Engine.Handlers.{
  EngineError, duplicate_order, unknown_symbol, remove_resting, affects_top,
  handle_new_order_single_impl,
}
use cpp_demo_build.MatchingEngine.Engine.Dispatch.{
  orig_key, new_key, as_cancel, replacement, cancel_resting, handle_cancel_order,
  reject_replacement, drain_orders, drain_side, flush_books, handle_flush, replace_resting,
  handle_replace_order, send, send_all,
}
use cpp_demo_build.MatchingEngine.Engine.Handlers.Kept.{IsKept}
use cpp_demo_build.MatchingEngine.Engine.Handlers.Keeps.{
  request_key, Second, if_keeps, remove_resting_keeps, handle_new_order_single_impl_keeps,
  handle_new_order_single_keeps,
}

-- An order that the request brings may rest.
abbrev pub Allows : (OrderKey → Type 0) → Request → Type 0
Allows Q (new_order_single request) = Q (request_key request)
Allows Q (replace_order incoming) = Q (new_key incoming)
Allows Q (cancel_order incoming) = Unit {0}
Allows Q flush = Unit {0}

module _ {P : Engine → Type 0} {Q : OrderKey → Type 0} (kept : IsKept P Q) where
  cancel_resting_keeps :
      (e : Engine) (c : CancelOrder) (node : OrderNode) → P e → IfDone P (cancel_resting e c node)
  unfolding cancel_resting
  cancel_resting_keeps e c node h =
      IfDone-bind (Second kept) P _ _ (remove_resting_keeps kept e _ node h) (λ r k.
        let k2 =
          kept.report r.1 node.order ExecType.canceled OrdStatus.canceled (some c.orig_cl_ord_id)
            none none k in
        if_keeps kept _ _ _ (kept.update _ r.0 node.side node.security_id k2) k2)

  handle_cancel_order_keeps :
      (e : Engine) (c : CancelOrder) → P e → IfDone P (handle_cancel_order e c)
  unfolding handle_cancel_order
  handle_cancel_order_keeps e c h = found (index_find (orig_key c) e.resting_index)
    where
      found :
          (o : Option Address)
          → IfDone P (elim o [
            | none ↦
                done (emit_cancel_reject e c RejectReason.unknown_order (codes "unknown order"))
            | some a ↦ (do node ← deref e a; cancel_resting e c node)
          ])
      found none = kept.reject e c _ _ h
      found (some a) = IfDone-bind_any P _ _ (λ node. cancel_resting_keeps e c node h)

  drain_orders_keeps : (e : Engine) (ns : List OrderNode) → P e → P (drain_orders e ns)
  unfolding drain_orders
  drain_orders_keeps e [] h = h
  drain_orders_keeps e (n ∷ ns) h = drain_orders_keeps (on_release n e) ns (kept.release n e h)

  drain_side_keeps : (e : Engine) (ls : SideMap) → P e → IfDone P (drain_side e ls)
  unfolding drain_side
  drain_side_keeps e [] h = h
  drain_side_keeps e (l ∷ ls) h =
      front l.orders
        (drain_side_keeps (drain_orders e l.orders) ls (drain_orders_keeps e l.orders h))
    where
      front :
          (ns : List OrderNode)
          → IfDone P (drain_side (drain_orders e l.orders) ls)
          → IfDone P (elim ns [
            | [] ↦ fault front_of_empty
            | _ ∷ _ ↦ drain_side (drain_orders e l.orders) ls
          ])
      front [] k = tt
      front (n ∷ ns) k = k

  flush_books_keeps :
      (e : Engine) (books : Books)
      → P e
      → IfDone (λ (r : Engine × Books). P r.0) (flush_books e books)
  unfolding flush_books
  flush_books_keeps e [] h = h
  flush_books_keeps e ((symbol, b) ∷ rest) h =
      IfDone-bind P (λ (r : Engine × Books). P r.0) (drain_side e b.bids) _
        (drain_side_keeps e b.bids h)
        (λ e1 k1.
          IfDone-bind P (λ (r : Engine × Books). P r.0) (drain_side e1 b.asks) _
            (drain_side_keeps e1 b.asks k1)
            (λ e2 k2.
              IfDone-bind (λ (r : Engine × Books). P r.0) (λ (r : Engine × Books). P r.0)
                (flush_books e2 rest) _ (flush_books_keeps e2 rest k2) (λ r k. k)))

  handle_flush_keeps : (e : Engine) → P e → IfDone P (handle_flush e)
  unfolding handle_flush
  handle_flush_keeps e h =
      IfDone-bind (λ (r : Engine × Books). P r.0) P (flush_books e e.books) _
        (flush_books_keeps e e.books h) (λ r k. kept.book r.0 r.1 k)

  reject_replacement_keeps :
      (e : Engine) (incoming : ReplaceOrder) (error : Option EngineError)
      → P e
      → P (reject_replacement e incoming error)
  unfolding reject_replacement
  reject_replacement_keeps e incoming none h = h
  reject_replacement_keeps e incoming (some (duplicate_order c o)) h = kept.reject e _ _ _ h
  reject_replacement_keeps e incoming (some (unknown_symbol symbol)) h = kept.reject e _ _ _ h

  module _ (pool : Pool) where
    replace_resting_keeps :
        (e : Engine) (incoming : ReplaceOrder) (node : OrderNode)
        → Q (new_key incoming)
        → P e
        → IfDone P (replace_resting pool e incoming node)
    unfolding replace_resting
    replace_resting_keeps e incoming node q h =
        IfDone-bind (Second kept) P (remove_resting e (orig_key (as_cancel incoming)) node) _
          (remove_resting_keeps kept e _ node h)
          (λ r k.
            let e2 =
              if affects_top e node.order
              then emit_mbo_book_update r.1 r.0 node.side node.security_id
              else r.1 in
            let k2 : P e2 =
              if_keeps kept (affects_top e node.order) _ r.1 (kept.update r.1 r.0 _ _ k) k in
            IfDone-bind (λ (x : Option EngineError × Engine). P x.1) P
              (handle_new_order_single_impl pool e2 (replacement incoming)) _
              (handle_new_order_single_impl_keeps kept pool e2 (replacement incoming) q k2)
              (λ x y. reject_replacement_keeps x.1 incoming x.0 y))

    handle_replace_order_keeps :
        (e : Engine) (incoming : ReplaceOrder)
        → Q (new_key incoming)
        → P e
        → IfDone P (handle_replace_order pool e incoming)
    unfolding handle_replace_order
    handle_replace_order_keeps e incoming q h = found _
      where
        fresh :
            (a : Address) (taken : Bool)
            → IfDone P (
                if taken
                then done (
                    emit_cancel_reject e
                      (as_cancel incoming)
                      RejectReason.duplicate_order
                      (codes "duplicate cl_ord_id"))
                else (do node ← deref e a; replace_resting pool e incoming node))
        fresh a true = kept.reject e _ _ _ h
        fresh a false =
            IfDone-bind_any P (deref e a) _ (λ node. replace_resting_keeps e incoming node q h)

        found :
            (o : Option Address)
            → IfDone P (elim o [
              | none ↦ done (
                  emit_cancel_reject e
                    (as_cancel incoming)
                    RejectReason.unknown_order
                    (codes "unknown order"))
              | some a ↦
                  if is_some (index_find (new_key incoming) e.resting_index)
                  then done (
                      emit_cancel_reject e
                        (as_cancel incoming)
                        RejectReason.duplicate_order
                        (codes "duplicate cl_ord_id"))
                  else (do node ← deref e a; replace_resting pool e incoming node)
            ])
        found none = kept.reject e _ _ _ h
        found (some a) = fresh a (is_some (index_find (new_key incoming) e.resting_index))

    send_keeps :
        (e : Engine) (request : Request) → Allows Q request → P e → IfDone P (send pool e request)
    unfolding send
    send_keeps e (new_order_single request) q h =
        handle_new_order_single_keeps kept pool e request q h
    send_keeps e (replace_order incoming) q h = handle_replace_order_keeps e incoming q h
    send_keeps e (cancel_order incoming) q h = handle_cancel_order_keeps e incoming h
    send_keeps e flush q h = handle_flush_keeps e h

    pub send_all_keeps :
        (e : Engine) (requests : List Request)
        → All (Allows Q) requests
        → P e
        → IfDone P (send_all pool e requests)
    unfolding send_all
    send_all_keeps e [] q h = h
    send_all_keeps e (r ∷ rs) q h =
        IfDone-bind P P (send pool e r) _ (send_keeps e r q.0 h) (λ x k. send_all_keeps x rs q.1 k)
