-- ===== src/MatchingEngine/Matching/Fills.antt =====
-- What the trades of a `match` add up to, by a callback that records them.
use cpp_demo_build.Prelude.{
  ℕ, suc, ◌+◌, ◌-◌, ◌<◌, ◌≡◌, refl, true, ◌&&◌, ◌==◌, none, some, Option, List, [], ◌∷◌, ◌++◌,
  arith, ltb, min, All, All-append, All-imp, Bool-cases, inl, inr, length, length-append, u64_mod,
  subst, sym, ◌∙◌,
}
use cpp_demo_build.OrderEntry.Types.{Price, Side, Symbol}
use cpp_demo_build.MarketData.Messages.{Trade}
use cpp_demo_build.MatchingEngine.Types.{OrderState, OrderNode}
use cpp_demo_build.MatchingEngine.Book.{SideMap}
use cpp_demo_build.MatchingEngine.Book.Invariant.{IsLevel, IsResting, leaves_sum, makers}
use cpp_demo_build.MatchingEngine.Matching.{
  ExecutionSummary, no_execution, crosses, make_trade, with_leaves, match,
}
use cpp_demo_build.MatchingEngine.Matching.Sweep.{Swept, sweep}
use cpp_demo_build.MatchingEngine.Matching.Refine.{match-sweep, crosses-with_leaves}

-- The callbacks of a test: the trades in their order, and nothing on a release.
abbrev pub record_trade : Trade → List Trade → List Trade
record_trade t ts = ts ++ t ∷ []

abbrev pub ignore_release : OrderNode → List Trade → List Trade
ignore_release n ts = ts

abbrev pub volume : List Trade → ℕ
volume [] = 0
volume (t ∷ ts) = t.quantity + volume ts

abbrev pub last_price : List Trade → Option Price
last_price [] = none
last_price (t ∷ []) = some t.price
last_price (t ∷ u ∷ ts) = last_price (u ∷ ts)

-- A trade at a price that the taker reaches, of some quantity.
pub record IsFill (taker : OrderState) (t : Trade) : Type 0 where
  pub reached : crosses taker t.price ≡ true
  pub positive : 0 < t.quantity

volume-snoc : (ts : List Trade) (t : Trade) → volume (ts ++ t ∷ []) ≡ volume ts + t.quantity
volume-snoc [] t = omega arith
volume-snoc (u ∷ us) t = omega (arith, volume-snoc us t)

last_price-snoc : (ts : List Trade) (t : Trade) → last_price (ts ++ t ∷ []) ≡ some t.price
last_price-snoc [] t = refl
last_price-snoc (u ∷ []) t = refl
last_price-snoc (u ∷ v ∷ us) t = last_price-snoc (v ∷ us) t

-- What holds between the start of a sweep and its end.
record Balanced (taker : OrderState) (r : ExecutionSummary) (ts : List Trade) (ns : List OrderNode)
    (w : Swept (List Trade)) : Type 0 where
  taken : volume w.world + w.taker.leaves_qty ≡ volume ts + taker.leaves_qty
  given : volume w.world + leaves_sum w.rest ≡ volume ts + leaves_sum ns
  counted : w.result.trades + length ts ≡ r.trades + length w.world
  fills : All (IsFill taker) ts → All (IsFill taker) w.world
  last : last_price ts ≡ r.last_traded → last_price w.world ≡ w.result.last_traded

module _ (taker : OrderState) (r : ExecutionSummary) (ts : List Trade) (m : OrderNode)
    (ms : List OrderNode) (positive : 0 < m.leaves_qty) (go : 0 < taker.leaves_qty)
    (reached : crosses taker m.price ≡ true) where
  abbrev q : ℕ
  q = min taker.leaves_qty m.leaves_qty

  abbrev taker' : OrderState
  taker' = with_leaves taker (taker.leaves_qty - q)

  abbrev m' : OrderNode
  m' = record m { order = with_leaves m.order (m.leaves_qty - q) }

  abbrev r' : ExecutionSummary
  r' = record { trades = suc r.trades; last_traded = some m.price }

  abbrev trade : Trade
  trade = make_trade taker m.order m.price q

  fill : IsFill taker trade
  unfolding make_trade
  fill = record { reached = reached; positive = omega arith }

  leave : (k : ℕ) (t : Trade) → IsFill taker t → IsFill (with_leaves taker k) t
  leave k t f = record {
    reached = crosses-with_leaves taker k t.price ∙ f.reached;
    positive = f.positive;
  }

  unleave : (k : ℕ) (t : Trade) → IsFill (with_leaves taker k) t → IsFill taker t
  unleave k t f = record {
    reached = sym (crosses-with_leaves taker k t.price) ∙ f.reached;
    positive = f.positive;
  }

  Balanced-last :
      Balanced taker r ts
        (m ∷ ms)
        (record { rest = m' ∷ ms; taker = taker'; result = r'; world = ts ++ trade ∷ [] })
  unfolding make_trade
  Balanced-last = record {
    taken = omega (arith, volume-snoc ts trade);
    given = omega (arith, volume-snoc ts trade);
    counted = omega (arith, length-append ts (trade ∷ []));
    fills = λ h. All-append (IsFill taker) ts (trade ∷ []) h (fill, tt);
    last = λ h. last_price-snoc ts trade;
  }

  Balanced-step :
      (w : Swept (List Trade))
      → q ≡ m.leaves_qty
      → Balanced taker' r' (ts ++ trade ∷ []) ms w
      → Balanced taker r ts (m ∷ ms) w
  unfolding make_trade
  Balanced-step w e b = record {
    taken = omega (arith, volume-snoc ts trade, b.taken);
    given = omega (arith, volume-snoc ts trade, b.given);
    counted = omega (arith, length-append ts (trade ∷ []), b.counted);
    fills = λ h. All-imp (IsFill taker') (IsFill taker) (unleave (taker.leaves_qty - q)) w.world (
        b.fills (
          All-append (IsFill taker') ts (trade ∷ [])
            (All-imp (IsFill taker) (IsFill taker') (leave (taker.leaves_qty - q)) ts h)
            (leave (taker.leaves_qty - q) trade fill, tt)));
    last = λ h. b.last (last_price-snoc ts trade);
  }

sweep-Balanced :
    (taker : OrderState) (r : ExecutionSummary) (ts : List Trade) (ns : List OrderNode)
    → All (λ (n : OrderNode). 0 < n.leaves_qty) ns
    → Balanced taker r ts ns (sweep record_trade ignore_release taker r ts ns)
unfolding sweep
sweep-Balanced taker r ts [] h = record {
  taken = refl;
  given = refl;
  counted = omega arith;
  fills = λ f. f;
  last = λ f. f;
}
sweep-Balanced taker r ts (m ∷ ms) h =
    elim (Bool-cases (ltb 0 taker.leaves_qty && crosses taker m.price)) [
      | inr f ↦
          rw (f, sweep)
            (record {
              taken = refl;
              given = refl;
              counted = omega arith;
              fills = λ f. f;
              last = λ f. f;
            })
      | inl f ↦ elim (Bool-cases (min taker.leaves_qty m.leaves_qty == m.leaves_qty)) [
        | inl g ↦
            rw (f, g, sweep)
              (Balanced-step taker r ts m ms h.0 (ground arith) (ground arith) _ (ground arith) (
                sweep-Balanced (taker' taker r ts m ms h.0 (ground arith) (ground arith)) _ _ ms
                  h.1))
        | inr g ↦ rw (f, g, sweep) (Balanced-last taker r ts m ms h.0 (ground arith) (ground arith))
      ]
    ]

makers_positive :
    (side : Side) (symbol : Symbol) (m : SideMap)
    → All (IsLevel side symbol) m
    → All (λ (n : OrderNode). 0 < n.leaves_qty) (makers m)
makers_positive side symbol [] h = tt
makers_positive side symbol (l ∷ ls) h =
    All-append (λ (n : OrderNode). 0 < n.leaves_qty) l.orders (makers ls)
      (All-imp (IsResting side symbol l.price) (λ (n : OrderNode). 0 < n.leaves_qty)
        (λ n r. r.positive) l.orders h.0.resting)
      (makers_positive side symbol ls h.1)

-- The trades of a `match` on a side with sound levels, by a taker whose quantity is a word of 64
-- bits: their quantities add up to what the taker
-- lost and to what the makers lost; the summary counts them and has the price of the last one; each
-- has a positive quantity and a price that the taker's limit reaches.
pub match-fills :
    (side : Side) (symbol : Symbol) (side_map : SideMap) (taker : OrderState)
    → All (IsLevel side symbol) side_map
    → taker.leaves_qty < u64_mod
    → (let m = match record_trade ignore_release side_map taker [] in
        (volume m.world + m.taker.leaves_qty ≡ taker.leaves_qty)
        × (volume m.world + leaves_sum (makers m.side_map) ≡ leaves_sum (makers side_map))
        × (m.result.trades ≡ length m.world)
        × (m.result.last_traded ≡ last_price m.world)
        × All (IsFill taker) m.world)
match-fills side symbol side_map taker h tb =
    let m = match record_trade ignore_release side_map taker [] in
    let (rest, terms, result, world) =
      match-sweep record_trade ignore_release side symbol side_map taker [] h tb in
    let b =
      sweep-Balanced taker no_execution [] (makers side_map)
        (makers_positive side symbol side_map h) in
    let b' : Balanced taker no_execution [] (makers side_map)
        (record { rest = makers m.side_map; taker = m.taker; result = m.result; world = m.world }) =
      subst (Balanced taker no_execution [] (makers side_map))
        (λ i. record {
          rest = sym rest i;
          taker = sym terms i;
          result = sym result i;
          world = sym world i;
        })
        b in
    (
      omega (arith, b'.taken),
      omega (arith, b'.given),
      omega (arith, b'.counted),
      sym (b'.last refl),
      b'.fills tt,
    )
