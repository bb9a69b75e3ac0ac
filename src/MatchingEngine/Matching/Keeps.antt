-- ===== src/MatchingEngine/Matching/Keeps.antt =====
-- What the loop of `match` keeps of the side map and of the taker.
use cpp_demo_build.Prelude.{
  ℕ, ◌+◌, ◌<◌, ◌≤◌, ◌≡◌, ◌≢◌, refl, Bool, true, false, List, [], ◌∷◌, arith, All, u64_mod, ap, ◌∙◌,
  sym, inl, inr, some, ◌⊎◌,
}
use mathlib.Core.List.{cons-ne-nil}
use cpp_demo_build.OrderEntry.Types.{Price, Side, Symbol}
use cpp_demo_build.MarketData.Messages.{Trade}
use cpp_demo_build.MatchingEngine.Types.{OrderState, OrderNode}
use cpp_demo_build.MatchingEngine.Book.{best_price, Entry, SideMap}
use cpp_demo_build.MatchingEngine.Book.Invariant.{IsLevel, IsSorted}
use cpp_demo_build.MatchingEngine.Matching.{
  ExecutionSummary, crosses, with_leaves, tally, match_loop, match, no_execution,
}
use cpp_demo_build.MatchingEngine.Matching.Walk.{
  after_level, enters, next_consumed, passed, match_loop_cases,
}
use cpp_demo_build.MatchingEngine.Matching.Level.{
  consume_orders-ends, IsFifo, consume_orders-IsFifo, taker-consume_orders,
  trades-consume_orders_pos,
}

trades-tally : (r : ExecutionSummary) (p : Price) (k : ℕ) → (tally r p k).trades ≡ r.trades + k
unfolding tally
trades-tally r p k = ground arith

module _ {S : Type 0} (on_trade : Trade → S → S) (on_release : OrderNode → S → S) where
  module _ (l : Entry) (taker : OrderState) (s : S) where
    -- The level as the loop leaves it, if anything is left.
    IsLevel-after_level :
        (side : Side) (symbol : Symbol) (n : OrderNode) (ns : List OrderNode)
        → IsLevel side symbol l
        → (after_level on_trade on_release l taker s).orders ≡ n ∷ ns
        → IsLevel side symbol
            (record l { level = (after_level on_trade on_release l taker s).level })
    IsLevel-after_level side symbol n ns h e = record {
      occupied = λ none_left. absurd (cons-ne-nil n ns (sym e ∙ none_left));
      resting = fifo.resting;
      total = fifo.total;
      priced = h.priced;
    }
      where
        fifo :
            IsFifo side symbol l.price
              (after_level on_trade on_release l taker s).orders
              (after_level on_trade on_release l taker s).total_remaining
        fifo =
            consume_orders-IsFifo on_trade on_release side symbol l.price _ l.orders refl
              (record { resting = h.resting; total = h.total })

    pub taker-after_level :
        taker.leaves_qty < u64_mod
        → ((after_level on_trade on_release l taker s).taker
            ≡ with_leaves taker (after_level on_trade on_release l taker s).taker.leaves_qty)
          × ((after_level on_trade on_release l taker s).taker.leaves_qty ≤ taker.leaves_qty)
    taker-after_level = taker-consume_orders on_trade on_release l.price _ l.orders

    trades-after_level :
        (ms : List OrderNode)
        → l.orders ≡ ms
        → l.orders ≢ []
        → enters taker l ≡ true
        → 0 < (after_level on_trade on_release l taker s).trades
    trades-after_level [] e occupied go = absurd (occupied e)
    trades-after_level (n ∷ ns) e occupied go =
        rw e (trades-consume_orders_pos on_trade on_release l.price _ n ns (ground arith))

  -- A level that keeps an order has ended the taker.
  pub parted_fills :
      (l : Entry) (taker : OrderState) (s : S) (n : OrderNode) (ns : List OrderNode)
      → (after_level on_trade on_release l taker s).orders ≡ n ∷ ns
      → (after_level on_trade on_release l taker s).taker.leaves_qty ≡ 0
  parted_fills l taker s n ns e =
      elim (consume_orders-ends on_trade on_release l.price
        (record { level = l.level; taker = taker; trades = 0; world = s }) l.orders refl) [
          | inl none_left ↦ absurd (cons-ne-nil n ns (sym e ∙ none_left))
          | inr filled ↦ filled
        ]

  -- The taker keeps its terms and gains no quantity.
  pub taker-match_loop :
      (consumed ls : SideMap) (taker : OrderState) (r : ExecutionSummary) (s : S)
      → taker.leaves_qty < u64_mod
      → (let w = match_loop on_trade on_release consumed ls taker r s in
          (w.taker ≡ with_leaves taker w.taker.leaves_qty)
          × (w.taker.leaves_qty ≤ taker.leaves_qty))
  unfolding match_loop
  taker-match_loop consumed [] taker r s h = (refl, omega arith)
  taker-match_loop consumed (l ∷ ls) taker r s h =
      match_loop_cases on_trade on_release consumed l ls taker r s
        (λ w.
          (w.taker ≡ with_leaves taker w.taker.leaves_qty)
          × (w.taker.leaves_qty ≤ taker.leaves_qty))
        (λ stop. (refl, omega arith))
        (λ go none_left.
          let (terms, less) = taker-after_level l taker s h in
          let c = after_level on_trade on_release l taker s in
          let (same, fewer) =
            taker-match_loop (next_consumed on_trade on_release consumed l taker s) ls c.taker
              (tally r l.price c.trades) c.world (omega arith) in
          (
            same
                ∙ ap
                    (λ (t : OrderState).
                      with_leaves t
                        (passed on_trade on_release consumed l ls taker r s c).taker.leaves_qty)
                    terms,
            omega arith,
          ))
        (λ go n ns e. taker-after_level l taker s h)

  -- What is left of the side is sorted levels, none of them at a new price.
  pub match_loop-levels :
      (side : Side) (symbol : Symbol) (consumed ls : SideMap) (taker : OrderState)
      (r : ExecutionSummary) (s : S)
      → All (IsLevel side symbol) ls
      → All (IsLevel side symbol) (match_loop on_trade on_release consumed ls taker r s).pending
  unfolding match_loop
  match_loop-levels side symbol consumed [] taker r s h = tt
  match_loop-levels side symbol consumed (l ∷ ls) taker r s h =
      match_loop_cases on_trade on_release consumed l ls taker r s
        (λ w. All (IsLevel side symbol) w.pending) (λ stop. h)
        (λ go none_left.
          let c = after_level on_trade on_release l taker s in
          match_loop-levels side symbol (next_consumed on_trade on_release consumed l taker s) ls
            c.taker (tally r l.price c.trades) c.world h.1)
        (λ go n ns e. (IsLevel-after_level l taker s side symbol n ns h.0 e, h.1))

  pub match_loop-IsSorted :
      (before : Price → Price → Bool) (consumed ls : SideMap) (taker : OrderState)
      (r : ExecutionSummary) (s : S)
      → IsSorted before ls
      → IsSorted before (match_loop on_trade on_release consumed ls taker r s).pending
  unfolding match_loop
  match_loop-IsSorted before consumed [] taker r s h = tt
  match_loop-IsSorted before consumed (l ∷ ls) taker r s h =
      match_loop_cases on_trade on_release consumed l ls taker r s (λ w. IsSorted before w.pending)
        (λ stop. h)
        (λ go none_left.
          let c = after_level on_trade on_release l taker s in
          match_loop-IsSorted before (next_consumed on_trade on_release consumed l taker s) ls
            c.taker (tally r l.price c.trades) c.world h.1)
        (λ go n ns e. h)

  -- A counter of trades that the loop never lowers.
  trades-match_loop :
      (consumed ls : SideMap) (taker : OrderState) (r : ExecutionSummary) (s : S)
      → r.trades ≤ (match_loop on_trade on_release consumed ls taker r s).result.trades
  unfolding match_loop
  trades-match_loop consumed [] taker r s = omega arith
  trades-match_loop consumed (l ∷ ls) taker r s =
      match_loop_cases on_trade on_release consumed l ls taker r s (λ w. r.trades ≤ w.result.trades)
        (λ stop. omega arith)
        (λ go none_left.
          let c = after_level on_trade on_release l taker s in
          omega (
            arith,
            trades-tally r l.price c.trades,
            trades-match_loop (next_consumed on_trade on_release consumed l taker s) ls c.taker
                (tally r l.price c.trades) c.world,
          ))
        (λ go n ns e.
          omega (arith, trades-tally r l.price (after_level on_trade on_release l taker s).trades))

  -- When no trade was made, nothing was consumed.
  pub match_loop-consumed :
      (side : Side) (symbol : Symbol) (consumed ls : SideMap) (taker : OrderState)
      (r : ExecutionSummary) (s : S)
      → All (IsLevel side symbol) ls
      → (let w = match_loop on_trade on_release consumed ls taker r s in
          (w.consumed ≡ consumed) ⊎ (0 < w.result.trades))
  unfolding match_loop
  match_loop-consumed side symbol consumed [] taker r s a = inl refl
  match_loop-consumed side symbol consumed (l ∷ ls) taker r s a =
      match_loop_cases on_trade on_release consumed l ls taker r s
        (λ w. (w.consumed ≡ consumed) ⊎ (0 < w.result.trades)) (λ stop. inl refl)
        (λ go none_left.
          let c = after_level on_trade on_release l taker s in
          inr (
            omega (
              arith,
              trades-tally r l.price c.trades,
              trades-after_level l taker s l.orders refl a.0.occupied go,
              trades-match_loop (next_consumed on_trade on_release consumed l taker s) ls c.taker
                  (tally r l.price c.trades) c.world,
            )))
        (λ go n ns e. inl refl)

  -- A taker that has quantity left does not reach what is left of the side.
  pub match_loop-exhausts :
      (consumed ls : SideMap) (taker : OrderState) (r : ExecutionSummary) (s : S) (p : Price)
      → taker.leaves_qty < u64_mod
      → (let w = match_loop on_trade on_release consumed ls taker r s in
          0 < w.taker.leaves_qty → best_price w.pending ≡ some p → crosses taker p ≡ false)
  unfolding match_loop best_price crosses
  match_loop-exhausts consumed [] taker r s p tb = λ left e. cc
  match_loop-exhausts consumed (l ∷ ls) taker r s p tb =
      match_loop_cases on_trade on_release consumed l ls taker r s
        (λ w. 0 < w.taker.leaves_qty → best_price w.pending ≡ some p → crosses taker p ≡ false)
        (λ stop left e. ground arith)
        (λ go none_left left e.
          let c = after_level on_trade on_release l taker s in
          let (terms, less) = taker-after_level l taker s tb in
          let ih =
            match_loop-exhausts (next_consumed on_trade on_release consumed l taker s) ls c.taker
              (tally r l.price c.trades) c.world p (omega arith) left e in
          sym (ap (λ (t : OrderState). crosses t p) terms) ∙ ih)
        (λ go n ns e left. absurd (omega (arith, parted_fills l taker s n ns e)))

  -- Erasing [begin, it) leaves the levels from the iterator on, also when nothing was traded.
  pub side_map-match :
      (side : Side) (symbol : Symbol) (side_map : SideMap) (taker : OrderState) (s : S)
      → All (IsLevel side symbol) side_map
      → (match on_trade on_release side_map taker s).side_map
        ≡ (match_loop on_trade on_release [] side_map taker no_execution s).pending
  unfolding match
  side_map-match side symbol side_map taker s a =
      elim (match_loop-consumed side symbol [] side_map taker no_execution s a) [
        | inr pos ↦ ground arith
        | inl e ↦ ground arith
      ]
