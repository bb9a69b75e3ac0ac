-- ===== src/MatchingEngine/Engine/Dispatch/Replaced.antt =====
-- What `handle(replace_order)` does to the identity of the original order.
use cpp_demo_build.Prelude.{
  ◌≡◌, refl, false, none, some, Option, List, ◌∷◌, All, subst, codes, if◌then◌else◌, Option-cases,
  Bool-cases, inl, inr,
}
use cpp_demo_build.OrderEntry.Types.{RejectReason}
use cpp_demo_build.OrderEntry.Messages.{ReplaceOrder, CancelOrder, Request, replace_order}
use cpp_demo_build.MatchingEngine.Types.{Address, OrderKey, OrderNode, key_of, key_eq}
use cpp_demo_build.MatchingEngine.Outcome.{
  Outcome, Ends, Ends-IfDone, done, fault, IfDone, IfDone-bind,
}
use cpp_demo_build.MatchingEngine.Engine.{
  Pool, Engine, index_find, index_emplace, is_some, emit_cancel_reject, emit_execution_report,
  emit_mbo_book_update, on_trade, on_release, release_node,
}
use cpp_demo_build.MatchingEngine.Engine.Index.{index_erase-none, eq_of_key_eq}
use cpp_demo_build.MatchingEngine.Engine.Invariant.{IsEngine}
use cpp_demo_build.MatchingEngine.Engine.Handlers.{
  EngineError, duplicate_order, unknown_symbol, affects_top, handle_new_order_single_impl,
}
use cpp_demo_build.MatchingEngine.Engine.Handlers.Kept.{IsKept}
use cpp_demo_build.MatchingEngine.Engine.Handlers.Keeps.{
  if_keeps, handle_new_order_single_impl_keeps,
}
use cpp_demo_build.MatchingEngine.Engine.Dispatch.{
  orig_key, new_key, as_cancel, replacement, reject_replacement, replace_resting,
  handle_replace_order, handle_cancel_order, send, send_all,
}
use cpp_demo_build.MatchingEngine.Engine.Dispatch.Sound.{IsWire}
use cpp_demo_build.MatchingEngine.Engine.Dispatch.Reachable.{send_all-Ends}
use cpp_demo_build.MatchingEngine.Engine.Dispatch.Keeps.{Allows, send_all_keeps}
use cpp_demo_build.MatchingEngine.Engine.Dispatch.Resting.{
  index_find-Linked, Removed, remove_resting-Removed,
}

-- The index does not hold the key.
abbrev pub Unseen : OrderKey → Engine → Type 0
Unseen k e = index_find k e.resting_index ≡ none

index_emplace-none :
    (j k : OrderKey) (a : Address) (e : Engine)
    → key_eq j k ≡ false
    → Unseen k e
    → index_find k (index_emplace j a e.resting_index) ≡ none
unfolding index_emplace index_find
index_emplace-none j k a e other h = elim (Bool-cases (is_some (index_find j e.resting_index))) [
  | inl f ↦ rw f h
  | inr f ↦ rw (f, other) h
]

-- Orders under other keys do not bring a key into the index.
Unseen-IsKept : (k : OrderKey) → IsKept (Unseen k) (λ j. key_eq j k ≡ false)
unfolding emit_execution_report emit_cancel_reject emit_mbo_book_update on_trade on_release
    release_node
Unseen-IsKept k = record {
  report = λ e order x s o q p h. h;
  reject = λ e c r t h. h;
  update = λ e b s i h. h;
  summary = λ e m h. h;
  trade = λ t e h. h;
  release = λ n e h. index_erase-none (key_of n.order) k e.resting_index h;
  book = λ e books h. h;
  erase = λ e key pool h. index_erase-none key k e.resting_index h;
  rest = λ e key a books pool other h. index_emplace-none key k a e other h;
}

reject_replacement-Unseen :
    (k : OrderKey) (e : Engine) (incoming : ReplaceOrder) (error : Option EngineError)
    → Unseen k e
    → Unseen k (reject_replacement e incoming error)
unfolding reject_replacement emit_cancel_reject
reject_replacement-Unseen k e incoming none h = h
reject_replacement-Unseen k e incoming (some (duplicate_order c o)) h = h
reject_replacement-Unseen k e incoming (some (unknown_symbol symbol)) h = h

-- Keys of which the index holds one only are different.
keys_differ :
    (j k : OrderKey) (a : Address) (e : Engine)
    → index_find k e.resting_index ≡ some a
    → Unseen j e
    → key_eq j k ≡ false
keys_differ j k a e found fresh = elim (Bool-cases (key_eq j k)) [
  | inr f ↦ f
  | inl same ↦
      let missed : index_find k e.resting_index ≡ none =
        subst (λ i. Unseen i e) (eq_of_key_eq j k same) fresh in
      cc
]

IfDone-map :
    {A : Type 0} (P Q : A → Type 0) (o : Outcome A)
    → ((a : A) → P a → Q a)
    → IfDone P o
    → IfDone Q o
IfDone-map P Q (done a) f h = f a h
IfDone-map P Q (fault x) f h = tt

module _ (pool : Pool) where
  replace_resting-Unseen :
      (e : Engine) (incoming : ReplaceOrder) (n : OrderNode)
      → key_eq (new_key incoming) (orig_key (as_cancel incoming)) ≡ false
      → Removed e (orig_key (as_cancel incoming)) n
      → IfDone (Unseen (orig_key (as_cancel incoming))) (replace_resting pool e incoming n)
  unfolding replace_resting
  replace_resting-Unseen e incoming n other r =
      let k = orig_key (as_cancel incoming) in
      let e2 =
        if affects_top e n.order
        then emit_mbo_book_update r.engine r.book n.side n.security_id
        else r.engine in
      let kept = Unseen-IsKept k in
      let k2 : Unseen k e2 =
        if_keeps kept (affects_top e n.order) _ r.engine (kept.update r.engine r.book _ _ r.gone)
          r.gone in
      rw r.returns (
        IfDone-bind (λ (x : Option EngineError × Engine). Unseen k x.1) (Unseen k)
          (handle_new_order_single_impl pool e2 (replacement incoming)) _
          (handle_new_order_single_impl_keeps kept pool e2 (replacement incoming) other k2)
          (λ x y. reject_replacement-Unseen k x.1 incoming x.0 y))

  handle_replace_order-Unseen :
      (e : Engine) (incoming : ReplaceOrder)
      → IsEngine e
      → Unseen (new_key incoming) e
      → IfDone (Unseen (orig_key (as_cancel incoming))) (handle_replace_order pool e incoming)
  unfolding handle_replace_order emit_cancel_reject
  handle_replace_order-Unseen e incoming h fresh =
      let k = orig_key (as_cancel incoming) in
      elim (Option-cases (index_find k e.resting_index)) [
        | inl unknown ↦ rw (unknown, handle_replace_order) unknown
        | inr (a, found) ↦
            let l = index_find-Linked e k a h found in
            rw (found, fresh, l.read, handle_replace_order)
              (replace_resting-Unseen e incoming l.node (keys_differ _ k a e found fresh)
                (remove_resting-Removed e k l.node l.book h l.keyed l.book_found l.linked))
      ]

  -- After a replace sent to a sound engine that does not hold the new identity, and any requests that
  -- bring no order under the original identity, any cancel of that identity is rejected as an unknown
  -- order, and changes nothing but for the rejection. A full pool may end the run before. Quantities
  -- are words of 64 bits.
  pub replaced-handle_cancel_order :
      (e : Engine) (incoming : ReplaceOrder) (requests : List Request) (c : CancelOrder)
      → IsEngine e
      → All IsWire (replace_order incoming ∷ requests)
      → index_find (new_key incoming) e.resting_index ≡ none
      → All (Allows (λ j. key_eq j (orig_key c) ≡ false)) requests
      → orig_key (as_cancel incoming) ≡ orig_key c
      → Ends
          (λ (e' : Engine).
            handle_cancel_order e' c
            ≡ done (emit_cancel_reject e' c RejectReason.unknown_order (codes "unknown order")))
          (send_all pool e (replace_order incoming ∷ requests))
  unfolding send_all send handle_cancel_order
  replaced-handle_cancel_order e incoming requests c h wire fresh others same =
      let k = orig_key c in
      let kept = Unseen-IsKept k in
      Ends-IfDone IsEngine _ _ (send_all-Ends pool e (replace_order incoming ∷ requests) h wire) (
        IfDone-bind (Unseen k) _ (handle_replace_order pool e incoming) _
          (subst (λ j. IfDone (Unseen j) (handle_replace_order pool e incoming)) same
            (handle_replace_order-Unseen e incoming h fresh))
          (λ x unseen.
            IfDone-map (Unseen k) _ (send_all pool x requests)
              (λ e' gone. rw (gone, handle_cancel_order) refl)
              (send_all_keeps kept pool x requests others unseen)))
