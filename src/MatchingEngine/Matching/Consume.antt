-- ===== src/MatchingEngine/Matching/Consume.antt =====
-- `consume_level` without its fuel: one clause for each order of the level.
use cpp_demo_build.Prelude.{
  ℕ, zero, suc, ◌<◌, ◌≡◌, refl, true, false, List, [], ◌∷◌, ltb, ◌==◌, arith, if◌then◌else◌, min,
  sub64, length, Bool-cases, inl, inr,
}
use cpp_demo_build.OrderEntry.Types.{Price}
use cpp_demo_build.MarketData.Messages.{Trade}
use cpp_demo_build.MatchingEngine.Types.{OrderNode}
use cpp_demo_build.MatchingEngine.Matching.{Consuming, fill_front, consume_loop, with_leaves}

module _ {ℓ} {S : Type ℓ} (on_trade : Trade → S → S) (on_release : OrderNode → S → S) where
  unfoldable pub consume_orders : Price → Consuming S → List OrderNode → Consuming S
  consume_orders p c [] = c
  consume_orders p c (n ∷ ns) =
      let c' = fill_front on_trade on_release p c n ns in
      let next = consume_orders p c' ns in
      if ltb 0 c.taker.leaves_qty
      then (if sub64 n.leaves_qty (min c.taker.leaves_qty n.leaves_qty) == 0 then next else c')
      else c

  -- What the fill of the front order takes off its maker.
  abbrev pub maker_left : Consuming S → OrderNode → ℕ
  maker_left c n = sub64 n.leaves_qty (min c.taker.leaves_qty n.leaves_qty)

  -- How a round ends: no quantity left, or a maker filled, or a maker that keeps the rest.
  pub consume_orders_cases {κ} :
      (P : Consuming S → Type κ) (p : Price) (c : Consuming S) (n : OrderNode) (ns : List OrderNode)
      → (c.taker.leaves_qty ≡ 0 → P c)
      → (0 < c.taker.leaves_qty
          → (maker_left c n == 0) ≡ true
          → P (consume_orders p (fill_front on_trade on_release p c n ns) ns))
      → (0 < c.taker.leaves_qty
          → (maker_left c n == 0) ≡ false
          → P (fill_front on_trade on_release p c n ns))
      → P (consume_orders p c (n ∷ ns))
  unfolding consume_orders
  consume_orders_cases P p c n ns stop popped kept = elim (Bool-cases (ltb 0 c.taker.leaves_qty)) [
    | inr e ↦ rw (e, consume_orders) (stop (ground arith))
    | inl e ↦ elim (Bool-cases (maker_left c n == 0)) [
      | inl f ↦ rw (e, f, consume_orders) (popped (ground arith) f)
      | inr f ↦ rw (e, f, consume_orders) (kept (ground arith) f)
    ]
  ]

  pub orders-fill_front :
      (p : Price) (c : Consuming S) (n : OrderNode) (ns : List OrderNode)
      → (maker_left c n == 0) ≡ true
      → (fill_front on_trade on_release p c n ns).orders ≡ ns
  unfolding fill_front
  orders-fill_front p c n ns h = rw h refl

  -- A maker that is not filled has ended the taker.
  pub leaves_qty-fill_front :
      (p : Price) (c : Consuming S) (n : OrderNode) (ns : List OrderNode)
      → (maker_left c n == 0) ≡ false
      → (fill_front on_trade on_release p c n ns).taker.leaves_qty ≡ 0
  unfolding fill_front sub64
  leaves_qty-fill_front p c n ns h = ground arith

  -- The taker loses quantity and nothing else.
  pub taker-fill_front :
      (p : Price) (c : Consuming S) (n : OrderNode) (ns : List OrderNode)
      → (fill_front on_trade on_release p c n ns).taker
        ≡ with_leaves c.taker (sub64 c.taker.leaves_qty (min c.taker.leaves_qty n.leaves_qty))
  unfolding fill_front
  taker-fill_front p c n ns = elim (Bool-cases (maker_left c n == 0)) [
    | inl e ↦ rw e refl
    | inr e ↦ rw e refl
  ]

  consume_loop_stops :
      (fuel : ℕ) (p : Price) (c : Consuming S) (ns : List OrderNode)
      → c.taker.leaves_qty ≡ 0
      → consume_loop on_trade on_release fuel p c ns ≡ c
  unfolding consume_loop
  consume_loop_stops zero p c ns h = refl
  consume_loop_stops (suc fuel) p c [] h = refl
  consume_loop_stops (suc fuel) p c (n ∷ ns) h = ground arith

  -- With more fuel than the level has orders, the loop of the source does not run out of it: it
  -- gives what the recursion over the orders gives, which has no fuel.
  pub consume_loop-eq :
      (fuel : ℕ) (p : Price) (c : Consuming S) (ns : List OrderNode)
      → length ns < fuel
      → consume_loop on_trade on_release fuel p c ns ≡ consume_orders p c ns
  unfolding consume_loop consume_orders
  consume_loop-eq zero p c ns h = absurd (omega arith)
  consume_loop-eq (suc fuel) p c [] h = refl
  consume_loop-eq (suc fuel) p c (n ∷ ns) h =
      let c' = fill_front on_trade on_release p c n ns in
      ground (
        arith,
        orders-fill_front p c n ns,
        leaves_qty-fill_front p c n ns,
        consume_loop_stops fuel p c' c'.orders,
        consume_loop-eq fuel p c' ns,
      )
