-- ===== src/MatchingEngine/Matching/Level.antt =====
-- What the loop of `consume_level` keeps of its level and of the taker.
use cpp_demo_build.Prelude.{
  ℕ, suc, ◌+◌, ◌-◌, ◌%◌, ◌<◌, ◌≤◌, ◌≡◌, refl, true, false, List, [], ◌∷◌, ◌==◌, arith, min, sub64,
  sub64-eq-sub, sub64-mod, Bool-cases, ◌⊎◌, ==_iff, All, u64_mod, ap, ◌∙◌, sym, inl, inr,
}
use cpp_demo_build.OrderEntry.Types.{Price, Side, Symbol, Quantity}
use cpp_demo_build.MarketData.Messages.{Trade}
use cpp_demo_build.MatchingEngine.Types.{OrderState, OrderNode}
use cpp_demo_build.MatchingEngine.Book.Invariant.{IsResting, leaves_sum}
use cpp_demo_build.MatchingEngine.Matching.{Consuming, fill_front, with_leaves}
use cpp_demo_build.MatchingEngine.Matching.Consume.{
  consume_orders, consume_orders_cases, leaves_qty-fill_front, maker_left, orders-fill_front,
  taker-fill_front,
}

-- A FIFO and its running total; it may be empty.
pub record IsFifo (side : Side) (symbol : Symbol) (p : Price) (ns : List OrderNode)
    (total_remaining : Quantity) : Type 0 where
  pub resting : All (IsResting side symbol p) ns
  pub total : total_remaining ≡ leaves_sum ns % u64_mod

-- A maker that a fill leaves something of still rests.
IsResting-filled :
    (side : Side) (symbol : Symbol) (p : Price) (n : OrderNode) (q : ℕ)
    → IsResting side symbol p n
    → q < n.leaves_qty
    → IsResting side symbol p (record n { order = with_leaves n.order (sub64 n.leaves_qty q) })
IsResting-filled side symbol p n q h lt =
    rw (sub64-eq-sub n.leaves_qty q (omega (arith, h.within, h.bounded)) (omega arith)) (record {
      on_side = h.on_side;
      of_symbol = h.of_symbol;
      at_price = h.at_price;
      positive = omega arith;
      within = omega (arith, h.within);
      bounded = h.bounded;
    })

module _ {S : Type 0} (on_trade : Trade → S → S) (on_release : OrderNode → S → S) where
  fill_front-IsFifo :
      (side : Side) (symbol : Symbol) (p : Price) (c : Consuming S) (n : OrderNode)
      (ns : List OrderNode)
      → IsFifo side symbol p (n ∷ ns) c.total_remaining
      → (let c' = fill_front on_trade on_release p c n ns in
          IsFifo side symbol p c'.orders c'.total_remaining)
  unfolding fill_front
  fill_front-IsFifo side symbol p c n ns f =
      elim (Bool-cases (maker_left on_trade on_release c n == 0)) [
        | inl gone ↦
            rw (gone, fill_front)
              (record {
                resting = f.resting.1;
                total = down ∙ ap (λ (t : ℕ). t % u64_mod) (gone_sum gone);
              })
        | inr kept ↦
            rw (kept, fill_front)
              (record {
                resting =
                    (IsResting-filled side symbol p n q f.resting.0 (kept_lt kept), f.resting.1);
                total = rw left (down ∙ ap (λ (t : ℕ). t % u64_mod) (omega (arith, kept_lt kept)));
              })
      ]
    where
      q : ℕ
      q = min c.taker.leaves_qty n.leaves_qty

      left : maker_left on_trade on_release c n ≡ n.leaves_qty - q
      left =
          sub64-eq-sub n.leaves_qty q (omega (arith, f.resting.0.within, f.resting.0.bounded))
            (omega arith)

      down : sub64 c.total_remaining q ≡ (n.leaves_qty + leaves_sum ns - q) % u64_mod
      down = rw f.total (
          sub64-mod (n.leaves_qty + leaves_sum ns) q (omega arith)
            (omega (arith, f.resting.0.within, f.resting.0.bounded)))

      gone_sum :
          (maker_left on_trade on_release c n == 0) ≡ true
          → n.leaves_qty + leaves_sum ns - q ≡ leaves_sum ns
      gone_sum gone = omega (arith, left, (==_iff _ 0).0 gone)

      kept_lt : (maker_left on_trade on_release c n == 0) ≡ false → q < n.leaves_qty
      kept_lt kept = ground (arith, left)

  pub consume_orders-IsFifo :
      (side : Side) (symbol : Symbol) (p : Price) (c : Consuming S) (ns : List OrderNode)
      → c.orders ≡ ns
      → IsFifo side symbol p c.orders c.total_remaining
      → (let c' = consume_orders on_trade on_release p c ns in
          IsFifo side symbol p c'.orders c'.total_remaining)
  unfolding consume_orders
  consume_orders-IsFifo side symbol p c [] e f = f
  consume_orders-IsFifo side symbol p c (n ∷ ns) e f =
      consume_orders_cases on_trade on_release
        (λ c'. IsFifo side symbol p c'.orders c'.total_remaining) p c n ns (λ stop. f)
        (λ go gone.
          consume_orders-IsFifo side symbol p c1 ns
            (orders-fill_front on_trade on_release p c n ns gone) kept)
        (λ go left. kept)
    where
      c1 : Consuming S
      c1 = fill_front on_trade on_release p c n ns

      kept : IsFifo side symbol p c1.orders c1.total_remaining
      kept = fill_front-IsFifo side symbol p c n ns (rw e at f)

  -- The taker keeps its terms and gains no quantity.
  pub taker-consume_orders :
      (p : Price) (c : Consuming S) (ns : List OrderNode)
      → c.taker.leaves_qty < u64_mod
      → (let c' = consume_orders on_trade on_release p c ns in
          (c'.taker ≡ with_leaves c.taker c'.taker.leaves_qty)
          × (c'.taker.leaves_qty ≤ c.taker.leaves_qty))
  unfolding consume_orders
  taker-consume_orders p c [] h = (refl, omega arith)
  taker-consume_orders p c (n ∷ ns) h =
      consume_orders_cases on_trade on_release
        (λ c'.
          (c'.taker ≡ with_leaves c.taker c'.taker.leaves_qty)
          × (c'.taker.leaves_qty ≤ c.taker.leaves_qty))
        p c n ns (λ stop. (refl, omega arith))
        (λ go gone.
          let (same, less) = taker-consume_orders p c1 ns (omega (arith, smaller)) in
          (
            same
                ∙ ap
                    (λ (t : OrderState).
                      with_leaves t (consume_orders on_trade on_release p c1 ns).taker.leaves_qty)
                    terms,
            omega (arith, smaller),
          ))
        (λ go left.
          (terms ∙ ap (with_leaves c.taker) (sym (ap OrderState.leaves_qty terms)), smaller))
    where
      c1 : Consuming S
      c1 = fill_front on_trade on_release p c n ns

      terms :
          c1.taker
          ≡ with_leaves c.taker (sub64 c.taker.leaves_qty (min c.taker.leaves_qty n.leaves_qty))
      terms = taker-fill_front on_trade on_release p c n ns

      smaller : c1.taker.leaves_qty ≤ c.taker.leaves_qty
      smaller =
          rw
            (
              terms,
              sub64-eq-sub c.taker.leaves_qty (min c.taker.leaves_qty n.leaves_qty) h (omega arith),
            )
            (omega arith)

  trades-fill_front :
      (p : Price) (c : Consuming S) (n : OrderNode) (ns : List OrderNode)
      → (fill_front on_trade on_release p c n ns).trades ≡ suc c.trades
  unfolding fill_front
  trades-fill_front p c n ns = ground arith

  trades-consume_orders :
      (p : Price) (c : Consuming S) (ns : List OrderNode)
      → c.trades ≤ (consume_orders on_trade on_release p c ns).trades
  unfolding consume_orders
  trades-consume_orders p c [] = omega arith
  trades-consume_orders p c (n ∷ ns) =
      let c1 = fill_front on_trade on_release p c n ns in
      consume_orders_cases on_trade on_release (λ c'. c.trades ≤ c'.trades) p c n ns
        (λ stop. omega arith)
        (λ go gone. omega (arith, trades-fill_front p c n ns, trades-consume_orders p c1 ns))
        (λ go left. omega (arith, trades-fill_front p c n ns))

  -- A level that is entered with quantity left trades at least once.
  pub trades-consume_orders_pos :
      (p : Price) (c : Consuming S) (n : OrderNode) (ns : List OrderNode)
      → 0 < c.taker.leaves_qty
      → 0 < (consume_orders on_trade on_release p c (n ∷ ns)).trades
  trades-consume_orders_pos p c n ns pos =
      let c1 = fill_front on_trade on_release p c n ns in
      consume_orders_cases on_trade on_release (λ c'. 0 < c'.trades) p c n ns
        (λ stop. absurd (omega arith))
        (λ go gone. omega (arith, trades-fill_front p c n ns, trades-consume_orders p c1 ns))
        (λ go left. omega (arith, trades-fill_front p c n ns))

  -- The loop leaves an order in the level only when the taker is filled.
  pub consume_orders-ends :
      (p : Price) (c : Consuming S) (ns : List OrderNode)
      → c.orders ≡ ns
      → ((consume_orders on_trade on_release p c ns).orders ≡ [])
        ⊎ ((consume_orders on_trade on_release p c ns).taker.leaves_qty ≡ 0)
  unfolding consume_orders
  consume_orders-ends p c [] e = inl e
  consume_orders-ends p c (n ∷ ns) e =
      let c' = fill_front on_trade on_release p c n ns in
      ground (
        arith,
        orders-fill_front on_trade on_release p c n ns,
        leaves_qty-fill_front on_trade on_release p c n ns,
        consume_orders-ends p c' ns,
      )
