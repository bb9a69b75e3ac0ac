-- ===== src/MatchingEngine/Matching/Refine.antt =====
-- `match` implements the sweep: one order at a time, then one level at a time.
use cpp_demo_build.Prelude.{
  ◌<◌, ◌≡◌, refl, true, false, ◌&&◌, ◌≢◌, List, [], ◌∷◌, ◌++◌, ltb, arith, min, sub64-eq-sub,
  sub64-lt, All, u64_mod, ap, sym, ◌∙◌,
}
use cpp_demo_build.OrderEntry.Types.{Price, Side, Symbol, Quantity}
use cpp_demo_build.MarketData.Messages.{Trade}
use cpp_demo_build.MatchingEngine.Types.{OrderState, OrderNode}
use cpp_demo_build.MatchingEngine.Book.{SideMap}
use cpp_demo_build.MatchingEngine.Book.Invariant.{IsResting, IsLevel, makers}
use cpp_demo_build.MatchingEngine.Matching.{
  Consuming, ExecutionSummary, fill_front, crosses, with_leaves, tally, match_loop, match, Walking,
  no_execution,
}
use cpp_demo_build.MatchingEngine.Matching.Consume.{
  consume_orders, consume_orders_cases, orders-fill_front, taker-fill_front,
}
use cpp_demo_build.MatchingEngine.Matching.Walk.{
  after_level, enters, next_consumed, match_loop_cases,
}
use cpp_demo_build.MatchingEngine.Matching.Keeps.{side_map-match, taker-after_level, parted_fills}
use cpp_demo_build.MatchingEngine.Matching.Sweep.{Swept, sweep}

pub crosses-with_leaves :
    (taker : OrderState) (q : Quantity) (p : Price)
    → crosses (with_leaves taker q) p ≡ crosses taker p
unfolding crosses
crosses-with_leaves taker q p = refl

module _ {S : Type 0} (on_trade : Trade → S → S) (on_release : OrderNode → S → S) where
  sweep_stops :
      (taker : OrderState) (r : ExecutionSummary) (s : S) (ns : List OrderNode)
      → taker.leaves_qty ≡ 0
      → sweep on_trade on_release taker r s ns
        ≡ record { rest = ns; taker = taker; result = r; world = s }
  unfolding sweep
  sweep_stops taker r s [] h = refl
  sweep_stops taker r s (n ∷ ns) h = ground arith

  sweep-fill_front :
      (p : Price) (c : Consuming S) (n : OrderNode) (ns rest : List OrderNode)
      (r : ExecutionSummary)
      → 0 < c.taker.leaves_qty
      → c.taker.leaves_qty < u64_mod
      → n.leaves_qty < u64_mod
      → n.price ≡ p
      → crosses c.taker p ≡ true
      → sweep on_trade on_release c.taker (tally r p c.trades) c.world (n ∷ (ns ++ rest)) ≡ (
          let c' = fill_front on_trade on_release p c n ns in
          sweep on_trade on_release c'.taker (tally r p c'.trades) c'.world (c'.orders ++ rest))
  unfolding sweep fill_front tally
  sweep-fill_front p c n ns rest r pos tb nb e cr = ground (
    arith,
    sub64-eq-sub c.taker.leaves_qty (min c.taker.leaves_qty n.leaves_qty),
    sub64-eq-sub n.leaves_qty (min c.taker.leaves_qty n.leaves_qty),
  )

  -- The level as a whole: the sweep goes on from where the loop of the level has stopped.
  sweep-consume_orders :
      (side : Side) (symbol : Symbol) (p : Price) (c : Consuming S) (ns rest : List OrderNode)
      (r : ExecutionSummary)
      → c.orders ≡ ns
      → c.taker.leaves_qty < u64_mod
      → All (IsResting side symbol p) ns
      → crosses c.taker p ≡ true
      → sweep on_trade on_release c.taker (tally r p c.trades) c.world (ns ++ rest) ≡ (
          let c' = consume_orders on_trade on_release p c ns in
          sweep on_trade on_release c'.taker (tally r p c'.trades) c'.world (c'.orders ++ rest))
  unfolding consume_orders
  sweep-consume_orders side symbol p c [] rest r e tb a cr = ground arith
  sweep-consume_orders side symbol p c (n ∷ ns) rest r e tb a cr =
      consume_orders_cases on_trade on_release
        (λ c'.
          sweep on_trade on_release c.taker (tally r p c.trades) c.world (n ∷ (ns ++ rest))
          ≡ sweep on_trade on_release c'.taker (tally r p c'.trades) c'.world (c'.orders ++ rest))
        p c n ns (λ stop. rw e refl)
        (λ go gone.
          first go
          ∙ ap
              (λ (ms : List OrderNode).
                sweep on_trade on_release c1.taker (tally r p c1.trades) c1.world (ms ++ rest))
              (orders-fill_front on_trade on_release p c n ns gone)
          ∙ sweep-consume_orders side symbol p c1 ns rest r
              (orders-fill_front on_trade on_release p c n ns gone) small a.1 still)
        (λ go kept. first go)
    where
      c1 : Consuming S
      c1 = fill_front on_trade on_release p c n ns

      small : c1.taker.leaves_qty < u64_mod
      small = rw (taker-fill_front on_trade on_release p c n ns) (sub64-lt c.taker.leaves_qty _)

      still : crosses c1.taker p ≡ true
      still = rw (taker-fill_front on_trade on_release p c n ns, crosses-with_leaves) cr

      first :
          0 < c.taker.leaves_qty
          → sweep on_trade on_release c.taker (tally r p c.trades) c.world (n ∷ (ns ++ rest))
            ≡ sweep on_trade on_release c1.taker (tally r p c1.trades) c1.world (c1.orders ++ rest)
      first go =
          sweep-fill_front p c n ns rest r go tb (omega (arith, a.0.bounded, a.0.within))
            a.0.at_price cr

  -- A level that is not entered stops the sweep at its first order.
  sweep_blocked :
      (side : Side) (symbol : Symbol) (p : Price) (taker : OrderState) (r : ExecutionSummary)
      (s : S) (ns rest : List OrderNode)
      → ns ≢ []
      → All (IsResting side symbol p) ns
      → (ltb 0 taker.leaves_qty && crosses taker p) ≡ false
      → sweep on_trade on_release taker r s (ns ++ rest)
        ≡ record { rest = ns ++ rest; taker = taker; result = r; world = s }
  unfolding sweep
  sweep_blocked side symbol p taker r s [] rest occ a h = absurd (occ refl)
  sweep_blocked side symbol p taker r s (n ∷ ns) rest occ a h = rw (a.0.at_price, h) refl

  abbrev walked : Walking S → Swept S
  walked w = record { rest = makers w.pending; taker = w.taker; result = w.result; world = w.world }

  sweep-match_loop :
      (side : Side) (symbol : Symbol) (consumed ls : SideMap) (taker : OrderState)
      (r : ExecutionSummary) (s : S)
      → All (IsLevel side symbol) ls
      → taker.leaves_qty < u64_mod
      → sweep on_trade on_release taker r s (makers ls)
        ≡ walked (match_loop on_trade on_release consumed ls taker r s)
  unfolding sweep match_loop tally
  sweep-match_loop side symbol consumed [] taker r s a tb = refl
  sweep-match_loop side symbol consumed (l ∷ ls) taker r s a tb =
      match_loop_cases on_trade on_release consumed l ls taker r s
        (λ w. sweep on_trade on_release taker r s (l.orders ++ makers ls) ≡ walked w)
        (λ stop.
          sweep_blocked side symbol l.price taker r s l.orders (makers ls) a.0.occupied a.0.resting
            stop)
        (λ go none_left.
          entered go
          ∙ ap
              (λ (ms : List OrderNode).
                sweep on_trade on_release c.taker (tally r l.price c.trades) c.world
                  (ms ++ makers ls))
              none_left
          ∙ sweep-match_loop side symbol (next_consumed on_trade on_release consumed l taker s) ls
              c.taker (tally r l.price c.trades) c.world a.1
              (omega (arith, (taker-after_level on_trade on_release l taker s tb).1)))
        (λ go n ns e.
          entered go
          ∙ sweep_stops c.taker (tally r l.price c.trades) c.world (c.orders ++ makers ls)
              (filled n ns e))
    where
      c : Consuming S
      c = after_level on_trade on_release l taker s

      entered :
          enters taker l ≡ true
          → sweep on_trade on_release taker r s (l.orders ++ makers ls)
            ≡ sweep on_trade on_release c.taker
                (tally r l.price c.trades)
                c.world
                (c.orders ++ makers ls)
      entered go =
          sweep-consume_orders side symbol l.price
            (record { level = l.level; taker = taker; trades = 0; world = s }) l.orders (makers ls)
            r refl tb a.0.resting (ground arith)

      filled : (n : OrderNode) (ns : List OrderNode) → c.orders ≡ n ∷ ns → c.taker.leaves_qty ≡ 0
      filled n ns e = parted_fills on_trade on_release l taker s n ns e

  -- `match` is the sweep: same makers left, same taker, same summary, same callbacks in the same
  -- order, for any side map with sound levels and a taker whose quantity is a word of 64 bits.
  pub match-sweep :
      (side : Side) (symbol : Symbol) (side_map : SideMap) (taker : OrderState) (s : S)
      → All (IsLevel side symbol) side_map
      → taker.leaves_qty < u64_mod
      → (let m = match on_trade on_release side_map taker s in
          let w = sweep on_trade on_release taker no_execution s (makers side_map) in
          (makers m.side_map ≡ w.rest)
          × (m.taker ≡ w.taker)
          × (m.result ≡ w.result)
          × (m.world ≡ w.world))
  unfolding match
  match-sweep side symbol side_map taker s a tb =
      let e = sweep-match_loop side symbol [] side_map taker no_execution s a tb in
      (
        ap makers (side_map-match on_trade on_release side symbol side_map taker s a)
            ∙ sym (ap Swept.rest e),
        sym (ap Swept.taker e),
        sym (ap Swept.result e),
        sym (ap Swept.world e),
      )
