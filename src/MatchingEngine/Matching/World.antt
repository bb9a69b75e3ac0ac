-- ===== src/MatchingEngine/Matching/World.antt =====
-- What both callbacks of `match` keep, and a taker that loses quantity, `match` keeps.
use cpp_demo_build.Prelude.{
  ℕ, zero, suc, List, [], ◌∷◌, Bool, true, false, ltb, Bool-cases, inl, inr, if◌then◌else◌,
}
use cpp_demo_build.OrderEntry.Types.{Price, Quantity}
use cpp_demo_build.MarketData.Messages.{Trade}
use cpp_demo_build.MatchingEngine.Types.{OrderState, OrderNode}
use cpp_demo_build.MatchingEngine.Book.{SideMap, Entry}
use cpp_demo_build.MatchingEngine.Matching.{
  with_leaves, tally, ExecutionSummary, no_execution, Consuming, fill_front, consume_loop,
  consume_level, match_loop, match,
}
use cpp_demo_build.MatchingEngine.Matching.Walk.{
  next_consumed, match_loop_cases, after_level, consume_level-after_level,
}

module _ {S : Type 0} (on_trade : Trade → S → S) (on_release : OrderNode → S → S)
    (P : OrderState → S → Type 0)
    (leaves_keeps : (o : OrderState) (q : Quantity) (s : S) → P o s → P (with_leaves o q) s)
    (trade_keeps : (o : OrderState) (t : Trade) (s : S) → P o s → P o (on_trade t s))
    (release_keeps : (o : OrderState) (n : OrderNode) (s : S) → P o s → P o (on_release n s)) where
  abbrev Holds : Consuming S → Type 0
  Holds c = P c.taker c.world

  if_world : (b : Bool) (x y : Consuming S) → Holds x → Holds y → Holds (if b then x else y)
  if_world true x y h k = h
  if_world false x y h k = k

  fill_front-world :
      (p : Price) (c : Consuming S) (node : OrderNode) (rest : List OrderNode)
      → Holds c
      → Holds (fill_front on_trade on_release p c node rest)
  unfolding fill_front
  fill_front-world p c node rest h =
      let k = trade_keeps _ _ _ (leaves_keeps _ _ _ h) in if_world _ _ _ (release_keeps _ _ _ k) k

  consume_loop-world :
      (fuel : ℕ) (p : Price) (c : Consuming S) (orders : List OrderNode)
      → Holds c
      → Holds (consume_loop on_trade on_release fuel p c orders)
  unfolding consume_loop
  consume_loop-world zero p c orders h = h
  consume_loop-world (suc fuel) p c [] h = h
  consume_loop-world (suc fuel) p c (node ∷ rest) h = elim (Bool-cases (ltb 0 c.taker.leaves_qty)) [
    | inl e ↦
        rw (e, consume_loop)
          (consume_loop-world fuel p (fill_front on_trade on_release p c node rest) _
            (fill_front-world p c node rest h))
    | inr e ↦ rw (e, consume_loop) h
  ]

  after_level-world :
      (l : Entry) (taker : OrderState) (s : S)
      → P taker s
      → Holds (after_level on_trade on_release l taker s)
  unfolding consume_level
  after_level-world l taker s h =
      rw (← consume_level-after_level on_trade on_release l taker s)
        (consume_loop-world _ l.price _ l.orders h)

  match_loop-world :
      (consumed ls : SideMap) (taker : OrderState) (r : ExecutionSummary) (s : S)
      → P taker s
      → (let w = match_loop on_trade on_release consumed ls taker r s in P w.taker w.world)
  unfolding match_loop
  match_loop-world consumed [] taker r s h = h
  match_loop-world consumed (l ∷ ls) taker r s h =
      match_loop_cases on_trade on_release consumed l ls taker r s (λ w. P w.taker w.world) (λ e. h)
        (λ e k.
          match_loop-world (next_consumed on_trade on_release consumed l taker s) ls
            (after_level on_trade on_release l taker s).taker
            (tally r l.price (after_level on_trade on_release l taker s).trades)
            (after_level on_trade on_release l taker s).world (after_level-world l taker s h))
        (λ e n ns k. after_level-world l taker s h)

  pub match-world :
      (side_map : SideMap) (taker : OrderState) (s : S)
      → P taker s
      → (let m = match on_trade on_release side_map taker s in P m.taker m.world)
  unfolding match
  match-world side_map taker s h = match_loop-world [] side_map taker no_execution s h
