-- ===== src/MatchingEngine/Matching/SoundSide.antt =====
-- What `match` leaves of a sound side of a book.
use cpp_demo_build.Prelude.{
  ◌<◌, ◌≤◌, ◌≡◌, Bool, false, some, [], ◌∷◌, All, u64_mod, ap, ◌∙◌, sym, subst,
}
use cpp_demo_build.OrderEntry.Types.{Price, Side, Symbol}
use cpp_demo_build.MarketData.Messages.{Trade}
use cpp_demo_build.MatchingEngine.Types.{OrderState, OrderNode}
use cpp_demo_build.MatchingEngine.Book.{best_price, Entry, SideMap}
use cpp_demo_build.MatchingEngine.Book.Invariant.{IsSide}
use cpp_demo_build.MatchingEngine.Matching.{
  ExecutionSummary, crosses, with_leaves, tally, match_loop, match, no_execution,
}
use cpp_demo_build.MatchingEngine.Matching.Walk.{after_level, next_consumed, match_loop_cases}
use cpp_demo_build.MatchingEngine.Matching.Keeps.{
  taker-match_loop, match_loop-levels, match_loop-IsSorted, match_loop-exhausts, side_map-match,
}

module _ {S : Type 0} (on_trade : Trade → S → S) (on_release : OrderNode → S → S) where
  match_loop-prices :
      (Q : Price → Type 0) (consumed ls : SideMap) (taker : OrderState) (r : ExecutionSummary)
      (s : S)
      → All (λ (l : Entry). Q l.price) ls
      → All
          (λ (l : Entry). Q l.price)
          (match_loop on_trade on_release consumed ls taker r s).pending
  unfolding match_loop
  match_loop-prices Q consumed [] taker r s h = tt
  match_loop-prices Q consumed (l ∷ ls) taker r s h =
      match_loop_cases on_trade on_release consumed l ls taker r s
        (λ w. All (λ (l : Entry). Q l.price) w.pending) (λ stop. h)
        (λ go none_left.
          let c = after_level on_trade on_release l taker s in
          match_loop-prices Q (next_consumed on_trade on_release consumed l taker s) ls c.taker
            (tally r l.price c.trades) c.world h.1)
        (λ go n ns e. h)

  module _ (before : Price → Price → Bool) (side : Side) (symbol : Symbol) (side_map : SideMap)
      (taker : OrderState) (s : S) (h : IsSide before side symbol side_map) where
    pub match-IsSide :
        IsSide before side symbol (match on_trade on_release side_map taker s).side_map
    match-IsSide =
        subst (IsSide before side symbol)
          (sym (side_map-match on_trade on_release side symbol side_map taker s h.levels))
          (record {
            levels =
                match_loop-levels on_trade on_release side symbol [] side_map taker no_execution s
                  h.levels;
            sorted =
                match_loop-IsSorted on_trade on_release before [] side_map taker no_execution s
                  h.sorted;
          })

    -- No level of the side has a new price.
    pub match-prices :
        (Q : Price → Type 0)
        → All (λ (l : Entry). Q l.price) side_map
        → All (λ (l : Entry). Q l.price) (match on_trade on_release side_map taker s).side_map
    match-prices Q a =
        subst (All (λ (l : Entry). Q l.price))
          (sym (side_map-match on_trade on_release side symbol side_map taker s h.levels))
          (match_loop-prices Q [] side_map taker no_execution s a)

    -- When `match` on a sound side leaves quantity of the taker, a word of 64 bits before, the taker's
    -- limit does not reach the best price that is left of the side: no fill that price allows is
    -- missed.
    pub match-exhausts :
        (p : Price)
        → taker.leaves_qty < u64_mod
        → 0 < (match on_trade on_release side_map taker s).taker.leaves_qty
        → best_price (match on_trade on_release side_map taker s).side_map ≡ some p
        → crosses taker p ≡ false
    unfolding match
    match-exhausts p tb left e =
        match_loop-exhausts on_trade on_release [] side_map taker no_execution s p tb left (
          ap best_price
            (sym (side_map-match on_trade on_release side symbol side_map taker s h.levels))
          ∙ e)

  pub taker-match :
      (side_map : SideMap) (taker : OrderState) (s : S)
      → taker.leaves_qty < u64_mod
      → (let m = match on_trade on_release side_map taker s in
          (m.taker ≡ with_leaves taker m.taker.leaves_qty)
          × (m.taker.leaves_qty ≤ taker.leaves_qty))
  unfolding match
  taker-match side_map taker s =
      taker-match_loop on_trade on_release [] side_map taker no_execution s
