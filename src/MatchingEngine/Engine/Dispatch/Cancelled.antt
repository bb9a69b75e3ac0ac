-- ===== src/MatchingEngine/Engine/Dispatch/Cancelled.antt =====
-- What `handle(cancel_order)` does to the resting orders and to the identity index.
use cpp_demo_build.Prelude.{
  ◌+◌, ◌≡◌, refl, Bool, true, false, none, some, count, bit, sym, subst, codes, if◌then◌else◌,
  Option-cases, inl, inr,
}
use cpp_demo_build.OrderEntry.Types.{ExecType, OrdStatus, RejectReason}
use cpp_demo_build.OrderEntry.Messages.{CancelOrder}
use cpp_demo_build.MatchingEngine.Types.{Address, OrderNode, key_of}
use cpp_demo_build.MatchingEngine.Outcome.{done, Ends}
use cpp_demo_build.MatchingEngine.Engine.{
  Engine, nodes, index_find, emit_execution_report, emit_cancel_reject, emit_mbo_book_update,
}
use cpp_demo_build.MatchingEngine.Engine.Invariant.{
  IsEngine, SameState, emit_execution_report-SameState, emit_mbo_book_update-SameState,
}
use cpp_demo_build.MatchingEngine.Engine.Handlers.{affects_top}
use cpp_demo_build.MatchingEngine.Engine.Dispatch.{orig_key, cancel_resting, handle_cancel_order}
use cpp_demo_build.MatchingEngine.Engine.Dispatch.Resting.{
  index_find-Linked, Removed, remove_resting-Removed,
}

-- The order with this key is gone: its node from the books, its key from the index.
abbrev pub Gone : CancelOrder → Engine → OrderNode → Engine → Type 0
Gone incoming e n e' =
    (key_of n.order ≡ orig_key incoming)
    × ((p : OrderNode → Bool) → bit (p n) + count p (nodes e'.books) ≡ count p (nodes e.books))
    × (index_find (orig_key incoming) e'.resting_index ≡ none)

-- What a cancel emits for an order that rests.
abbrev pub reported : CancelOrder → OrderNode → Engine → Engine
reported incoming n e =
    emit_execution_report e n.order ExecType.canceled OrdStatus.canceled
      (some incoming.orig_cl_ord_id) none none

same-Gone :
    (incoming : CancelOrder) (e : Engine) (n : OrderNode) (f g : Engine)
    → SameState f g
    → Gone incoming e n f
    → Gone incoming e n g
same-Gone incoming e n f g s h = (
  h.0,
  λ p.
      subst (λ b. bit (p n) + count p (nodes b) ≡ count p (nodes e.books)) (sym s.same_books)
        (h.1 p),
  subst (λ i. index_find (orig_key incoming) i ≡ none) (sym s.same_index) h.2,
)

if-Gone :
    (incoming : CancelOrder) (e : Engine) (n : OrderNode) (t : Bool) (f g : Engine)
    → Gone incoming e n f
    → Gone incoming e n g
    → Gone incoming e n (if t then f else g)
if-Gone incoming e n true f g h k = h
if-Gone incoming e n false f g h k = k

cancel_resting-Gone :
    (e : Engine) (incoming : CancelOrder) (n : OrderNode)
    → key_of n.order ≡ orig_key incoming
    → Removed e (orig_key incoming) n
    → (e' : Engine) × (cancel_resting e incoming n ≡ done e') × Gone incoming e n e'
unfolding cancel_resting
cancel_resting-Gone e incoming n key r =
    let e2 = reported incoming n r.engine in
    let e3 = emit_mbo_book_update e2 r.book n.side n.security_id in
    let k =
      same-Gone incoming e n r.engine e2
        (emit_execution_report-SameState r.engine n.order ExecType.canceled OrdStatus.canceled
          (some incoming.orig_cl_ord_id) none none)
        (key, r.left, r.gone) in
    (
      if affects_top e n.order then e3 else e2,
      rw r.returns refl,
      if-Gone incoming e n (affects_top e n.order) e3 e2
          (same-Gone incoming e n e2 e3
            (emit_mbo_book_update-SameState e2 r.book n.side n.security_id) k)
          k,
    )

-- A cancel of an order that the index of a sound engine holds returns, and takes one order out, the
-- one with that client and that identity: no other resting order is lost or gained, and the key is no
-- longer in the index.
pub handle_cancel_order-Gone :
    (e : Engine) (incoming : CancelOrder) (a : Address)
    → IsEngine e
    → index_find (orig_key incoming) e.resting_index ≡ some a
    → (n : OrderNode) × (e' : Engine) × (handle_cancel_order e incoming ≡ done e')
      × Gone incoming e n e'
unfolding handle_cancel_order
handle_cancel_order-Gone e incoming a h found =
    let l = index_find-Linked e (orig_key incoming) a h found in
    let (e', returns, gone) = cancel_resting-Gone e incoming l.node l.keyed (
      remove_resting-Removed e (orig_key incoming) l.node l.book h l.keyed l.book_found l.linked) in
    (l.node, e', rw (found, l.read, handle_cancel_order) returns, gone)

unseen_after :
    (e : Engine) (incoming : CancelOrder)
    → IsEngine e
    → Ends
        (λ (e' : Engine). index_find (orig_key incoming) e'.resting_index ≡ none)
        (handle_cancel_order e incoming)
unfolding handle_cancel_order emit_cancel_reject
unseen_after e incoming h = elim (Option-cases (index_find (orig_key incoming) e.resting_index)) [
  | inl unknown ↦ rw (unknown, handle_cancel_order) unknown
  | inr (a, found) ↦
      let r = handle_cancel_order-Gone e incoming a h found in
      subst (Ends (λ (e' : Engine). index_find (orig_key incoming) e'.resting_index ≡ none))
        (sym r.2) r.3.2
]

-- A cancel that is sent again to the engine it left is rejected as an unknown order, whatever the
-- first one found, and the rejection is all that it does. The engine was sound before.
pub handle_cancel_order_again :
    (e e' : Engine) (incoming : CancelOrder)
    → IsEngine e
    → handle_cancel_order e incoming ≡ done e'
    → handle_cancel_order e' incoming
      ≡ done (emit_cancel_reject e' incoming RejectReason.unknown_order (codes "unknown order"))
unfolding handle_cancel_order
handle_cancel_order_again e e' incoming h first =
    let unseen =
      subst (Ends (λ (x : Engine). index_find (orig_key incoming) x.resting_index ≡ none)) first
        (unseen_after e incoming h) in
    rw (unseen, handle_cancel_order) refl
