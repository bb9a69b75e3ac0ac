-- ===== src/MatchingEngine/Engine/Dispatch/Sound.antt =====
-- `send` keeps the engine sound, from its construction on.
use cpp_demo_build.Prelude.{
  ◌<◌, none, some, Option, u64_mod, if◌then◌else◌, Bool-cases, Option-cases, inl, inr,
}
use cpp_demo_build.OrderEntry.Messages.{
  ReplaceOrder, CancelOrder, Request, new_order_single, replace_order, cancel_order, flush,
}
use cpp_demo_build.MatchingEngine.Types.{Address, OrderKey, OrderNode}
use cpp_demo_build.MatchingEngine.Outcome.{Ends, Ends-bind}
use cpp_demo_build.MatchingEngine.Engine.{
  Pool, Engine, index_find, is_some, emit_cancel_reject, emit_mbo_book_update,
}
use cpp_demo_build.MatchingEngine.Engine.Invariant.{
  IsEngine, SameState-IsEngine, emit_mbo_book_update-SameState, if-IsEngine,
}
use cpp_demo_build.MatchingEngine.Engine.Handlers.{
  EngineError, duplicate_order, unknown_symbol, affects_top, handle_new_order_single_impl,
}
use cpp_demo_build.MatchingEngine.Engine.Handlers.Accept.{handle_new_order_single_impl-Ends}
use cpp_demo_build.MatchingEngine.Engine.Dispatch.Resting.{
  Linked, index_find-Linked, Removed, remove_resting-Removed, cancel_resting-Ends,
}
use cpp_demo_build.MatchingEngine.Engine.Dispatch.{
  orig_key, as_cancel, new_key, replacement, handle_cancel_order, reject_replacement,
  replace_resting, handle_replace_order,
}

removed :
    (e : Engine) (k : OrderKey) (a : Address) → IsEngine e → (l : Linked e k a) → Removed e k l.node
removed e k a h l = remove_resting-Removed e k l.node l.book h l.keyed l.book_found l.linked

pub handle_cancel_order-Ends :
    (e : Engine) (incoming : CancelOrder)
    → IsEngine e
    → Ends IsEngine (handle_cancel_order e incoming)
unfolding handle_cancel_order emit_cancel_reject
handle_cancel_order-Ends e incoming h =
    elim (Option-cases (index_find (orig_key incoming) e.resting_index)) [
      | inl unknown ↦
          rw (unknown, handle_cancel_order) (record { sound = h.sound; tracked = h.tracked })
      | inr (a, found) ↦
          let l = index_find-Linked e (orig_key incoming) a h found in
          rw (found, l.read, handle_cancel_order)
            (cancel_resting-Ends e incoming l.node (removed e (orig_key incoming) a h l))
    ]

reject_replacement-IsEngine :
    (e : Engine) (incoming : ReplaceOrder) (error : Option EngineError)
    → IsEngine e
    → IsEngine (reject_replacement e incoming error)
unfolding reject_replacement emit_cancel_reject
reject_replacement-IsEngine e incoming none h = h
reject_replacement-IsEngine e incoming (some (duplicate_order c o)) h = record {
  sound = h.sound;
  tracked = h.tracked;
}
reject_replacement-IsEngine e incoming (some (unknown_symbol s)) h = record {
  sound = h.sound;
  tracked = h.tracked;
}

-- A request of the C++ types: its quantity is a word of 64 bits.
abbrev pub IsWire : Request → Type 0
IsWire (new_order_single request) = request.order_qty < u64_mod
IsWire (replace_order incoming) = incoming.order_qty < u64_mod
IsWire (cancel_order incoming) = Unit {0}
IsWire flush = Unit {0}

module _ (pool : Pool) where
  replace_resting-Ends :
      (e : Engine) (incoming : ReplaceOrder) (n : OrderNode)
      → incoming.order_qty < u64_mod
      → Removed e (orig_key (as_cancel incoming)) n
      → Ends IsEngine (replace_resting pool e incoming n)
  unfolding replace_resting
  replace_resting-Ends e incoming n bounded r =
      let updated = emit_mbo_book_update r.engine r.book n.side n.security_id in
      let t = affects_top e n.order in
      let e2 = if t then updated else r.engine in
      let k =
        if-IsEngine t updated r.engine
          (SameState-IsEngine r.engine updated
            (emit_mbo_book_update-SameState r.engine r.book n.side n.security_id) r.sound)
          r.sound in
      rw r.returns (
        Ends-bind (λ (x : Option EngineError × Engine). IsEngine x.1) IsEngine
          (handle_new_order_single_impl pool e2 (replacement incoming)) _
          (handle_new_order_single_impl-Ends pool e2 (replacement incoming) k bounded)
          (λ x i. reject_replacement-IsEngine x.1 incoming x.0 i))

  pub handle_replace_order-Ends :
      (e : Engine) (incoming : ReplaceOrder)
      → IsEngine e
      → incoming.order_qty < u64_mod
      → Ends IsEngine (handle_replace_order pool e incoming)
  unfolding handle_replace_order emit_cancel_reject
  handle_replace_order-Ends e incoming h bounded =
      elim (Option-cases (index_find (orig_key (as_cancel incoming)) e.resting_index)) [
        | inl unknown ↦
            rw (unknown, handle_replace_order) (record { sound = h.sound; tracked = h.tracked })
        | inr (a, found) ↦
            elim (Bool-cases (is_some (index_find (new_key incoming) e.resting_index))) [
              | inl taken ↦
                  rw (found, taken, handle_replace_order)
                    (record { sound = h.sound; tracked = h.tracked })
              | inr unused ↦
                  let l = index_find-Linked e (orig_key (as_cancel incoming)) a h found in
                  rw (found, unused, l.read, handle_replace_order)
                    (replace_resting-Ends e incoming l.node bounded
                      (removed e (orig_key (as_cancel incoming)) a h l))
            ]
      ]
