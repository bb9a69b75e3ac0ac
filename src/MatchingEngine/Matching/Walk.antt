-- ===== src/MatchingEngine/Matching/Walk.antt =====
-- The loop of `match` over the levels: its cases, and what it keeps of the side map.
use cpp_demo_build.Prelude.{
  suc, ◌≡◌, refl, Bool, true, false, ◌&&◌, List, [], ◌∷◌, ◌++◌, ltb, arith, if◌then◌else◌, length,
  is_empty, Bool-cases, ap, inl, inr,
}
use cpp_demo_build.MarketData.Messages.{Trade}
use cpp_demo_build.MatchingEngine.Types.{OrderState, OrderNode}
use cpp_demo_build.MatchingEngine.Book.{Entry, SideMap}
use cpp_demo_build.MatchingEngine.Matching.{
  Consuming, ExecutionSummary, Walking, consume_level, crosses, tally, match_loop,
}
use cpp_demo_build.MatchingEngine.Matching.Consume.{consume_orders, consume_loop-eq}

-- The condition of the loop at the level `l`.
abbrev pub enters : OrderState → Entry → Bool
enters taker l = ltb 0 taker.leaves_qty && crosses taker l.price

module _ {S : Type 0} (on_trade : Trade → S → S) (on_release : OrderNode → S → S) where
  -- The state in which `consume_level` leaves the level `l`.
  abbrev pub after_level : Entry → OrderState → S → Consuming S
  after_level l taker s =
      consume_orders on_trade on_release l.price
        (record { level = l.level; taker = taker; trades = 0; world = s }) l.orders

  pub consume_level-after_level :
      (l : Entry) (taker : OrderState) (s : S)
      → consume_level on_trade on_release l.level l.price taker s ≡ after_level l taker s
  unfolding consume_level
  consume_level-after_level l taker s =
      consume_loop-eq on_trade on_release (suc (length l.orders)) l.price _ l.orders (omega arith)

  module _ (consumed : SideMap) (l : Entry) (ls : SideMap) (taker : OrderState)
      (r : ExecutionSummary) (s : S) where
    abbrev pub passed : Consuming S → Walking S
    passed c =
        match_loop on_trade on_release (consumed ++ record l { level = c.level } ∷ []) ls c.taker
          (tally r l.price c.trades) c.world

    abbrev pub parted : Consuming S → Walking S
    parted c = record {
      consumed = consumed;
      pending = record l { level = c.level } ∷ ls;
      taker = c.taker;
      result = tally r l.price c.trades;
      world = c.world;
    }

    match_loop_enter {κ} :
        (P : Walking S → Type κ) (c : Consuming S)
        → (c.orders ≡ [] → P (passed c))
        → ((n : OrderNode) (ns : List OrderNode) → c.orders ≡ n ∷ ns → P (parted c))
        → (ms : List OrderNode) → c.orders ≡ ms
        → P (if is_empty c.orders then passed c else parted c)
    match_loop_enter P c through partial [] e = rw (ap is_empty e) (through e)
    match_loop_enter P c through partial (n ∷ ns) e = rw (ap is_empty e) (partial n ns e)

    -- How a round ends: the level is not entered, or consumed, or left with a part.
    pub match_loop_cases {κ} :
        (P : Walking S → Type κ)
        → (enters taker l ≡ false
            → P (record {
              consumed = consumed;
              pending = l ∷ ls;
              taker = taker;
              result = r;
              world = s;
            }))
        → (enters taker l ≡ true
            → (after_level l taker s).orders ≡ []
            → P (passed (after_level l taker s)))
        → (enters taker l ≡ true
            → (n : OrderNode) (ns : List OrderNode) → (after_level l taker s).orders ≡ n ∷ ns
            → P (parted (after_level l taker s)))
        → P (match_loop on_trade on_release consumed (l ∷ ls) taker r s)
    unfolding match_loop
    match_loop_cases P stop through partial = elim (Bool-cases (enters taker l)) [
      | inr e ↦ rw (e, match_loop) (stop e)
      | inl e ↦
          rw (e, consume_level-after_level l taker s, match_loop)
            (match_loop_enter P (after_level l taker s) (through e) (partial e)
              (after_level l taker s).orders refl)
    ]

  -- The levels before the iterator after the level `l`.
  abbrev pub next_consumed : SideMap → Entry → OrderState → S → SideMap
  next_consumed consumed l taker s =
      consumed ++ record l { level = (after_level l taker s).level } ∷ []
