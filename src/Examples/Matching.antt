-- ===== src/Examples/Matching.antt =====
-- The matching theorems at an ask side of two orders, and a taker that fills one and a half.
use cpp_demo_build.Prelude.{
  ℕ, ◌+◌, ◌<◌, ◌≡◌, refl, false, some, List, [], ◌∷◌, arith, All, length, sub64, u64_mod,
}
use mathlib.Core.List.{cons-ne-nil}
use cpp_demo_build.OrderEntry.Types.{buy, sell}
use cpp_demo_build.MarketData.Messages.{Trade}
use cpp_demo_build.MatchingEngine.Types.{OrderState, OrderNode, make_order_state}
use cpp_demo_build.MatchingEngine.Outcome.{done}
use cpp_demo_build.MatchingEngine.Book.{Entry, SideMap, OrderBook, less, place, cancel, best_price}
use cpp_demo_build.MatchingEngine.Book.Invariant.{
  IsResting, IsLevel, IsSide, IsBook, leaves_sum, makers,
}
use cpp_demo_build.MatchingEngine.Book.RoundTrip.{cancel-place}
use cpp_demo_build.MatchingEngine.Matching.{
  match, match_loop, consume_level, consume_loop, fill_front, tally, crosses, reaches, make_trade,
  no_execution, Consuming,
}
use cpp_demo_build.MatchingEngine.Matching.Sweep.{sweep}
use cpp_demo_build.MatchingEngine.Matching.Consume.{consume_orders, consume_loop-eq}
use cpp_demo_build.MatchingEngine.Matching.Refine.{match-sweep}
use cpp_demo_build.MatchingEngine.Matching.SoundSide.{match-exhausts}
use cpp_demo_build.MatchingEngine.Matching.Fills.{
  match-fills, record_trade, ignore_release, volume, last_price, IsFill,
}
use cpp_demo_build.Examples.Fixtures.{petr, limit_order}

unfoldable maker : ℕ → ℕ → ℕ → OrderNode
unfolding make_order_state
maker address q price = record {
  address = address;
  order = make_order_state (limit_order address sell q price);
}

abbrev ask_level : Entry
ask_level = record {
  price = 11;
  level = record { orders = maker 1 40 11 ∷ maker 2 50 11 ∷ []; total_remaining = 90 };
}

abbrev asks : SideMap
asks = ask_level ∷ []

maker-IsResting :
    (address q price : ℕ) → 0 < q → q < u64_mod → IsResting sell petr price (maker address q price)
unfolding maker make_order_state
maker-IsResting address q price pos h = record {
  on_side = refl;
  of_symbol = refl;
  at_price = refl;
  positive = pos;
  within = omega arith;
  bounded = h;
}

ask_level-IsLevel : IsLevel sell petr ask_level
unfolding maker make_order_state
ask_level-IsLevel = record {
  occupied = cons-ne-nil _ _;
  resting = (
    maker-IsResting 1 40 11 (omega arith) (omega arith),
    (maker-IsResting 2 50 11 (omega arith) (omega arith), tt),
  );
  total = refl;
  priced = omega arith;
}

asks-IsSide : IsSide less sell petr asks
asks-IsSide = record { levels = (ask_level-IsLevel, tt); sorted = (tt, tt) }

unfoldable buyer : ℕ → OrderState
unfolding make_order_state
buyer q = make_order_state (limit_order 9 buy q 11)

buyer_fits : (q : ℕ) → q < u64_mod → (buyer q).leaves_qty < u64_mod
unfolding buyer make_order_state
buyer_fits q h = h

match-sweep_example :
    (let m = match record_trade ignore_release asks (buyer 60) [] in
      let w = sweep record_trade ignore_release (buyer 60) no_execution [] (makers asks) in
      (makers m.side_map ≡ w.rest)
      × (m.taker ≡ w.taker)
      × (m.result ≡ w.result)
      × (m.world ≡ w.world))
match-sweep_example =
    match-sweep record_trade ignore_release sell petr asks (buyer 60) [] asks-IsSide.levels
      (buyer_fits 60 (omega arith))

match-fills_example :
    (let m = match record_trade ignore_release asks (buyer 60) [] in
      (volume m.world + m.taker.leaves_qty ≡ (buyer 60).leaves_qty)
      × (volume m.world + leaves_sum (makers m.side_map) ≡ leaves_sum (makers asks))
      × (m.result.trades ≡ length m.world)
      × (m.result.last_traded ≡ last_price m.world)
      × All (IsFill (buyer 60)) m.world)
match-fills_example =
    match-fills sell petr asks (buyer 60) asks-IsSide.levels (buyer_fits 60 (omega arith))

-- The run itself: two trades, of 40 and of 20.
match_run :
    (let m = match record_trade ignore_release asks (buyer 60) [] in
      (m.result.trades ≡ 2) × (m.taker.leaves_qty ≡ 0) × (volume m.world ≡ 60))
unfolding match match_loop consume_level consume_loop fill_front tally crosses reaches make_trade
    sub64 maker buyer make_order_state
match_run = (refl, refl, refl)

-- A second level at 12, which a buyer at 11 does not reach.
abbrev far_level : Entry
far_level = record {
  price = 12;
  level = record { orders = maker 3 5 12 ∷ []; total_remaining = 5 };
}

abbrev deep_asks : SideMap
deep_asks = ask_level ∷ far_level ∷ []

deep_asks-IsSide : IsSide less sell petr deep_asks
unfolding maker make_order_state
deep_asks-IsSide = record {
  levels = (
    ask_level-IsLevel,
    (
      record {
        occupied = cons-ne-nil _ _;
        resting = (maker-IsResting 3 5 12 (omega arith) (omega arith), tt);
        total = refl;
        priced = omega arith;
      },
      tt,
    ),
  );
  sorted = ((refl, tt), (tt, tt));
}

deep_run :
    (let m = match record_trade ignore_release deep_asks (buyer 200) [] in
      (m.taker.leaves_qty ≡ 110) × (best_price m.side_map ≡ some 12))
unfolding match match_loop consume_level consume_loop fill_front tally crosses reaches make_trade
    sub64 maker buyer make_order_state best_price
deep_run = (refl, refl)

match-exhausts_example : crosses (buyer 200) 12 ≡ false
match-exhausts_example =
    match-exhausts record_trade ignore_release less sell petr deep_asks (buyer 200) []
      deep_asks-IsSide 12 (buyer_fits 200 (omega arith)) (omega (arith, deep_run.0)) deep_run.1

abbrev start : Consuming (List Trade)
start = record { level = ask_level.level; taker = buyer 60; trades = 0; world = [] }

consume_loop-eq_example :
    consume_loop record_trade ignore_release 3 11 start ask_level.orders
    ≡ consume_orders record_trade ignore_release 11 start ask_level.orders
consume_loop-eq_example =
    consume_loop-eq record_trade ignore_release 3 11 start ask_level.orders (omega arith)

abbrev book : OrderBook
book = record { bids = []; asks = asks }

book-IsBook : IsBook petr book
book-IsBook = record {
  bid_side = record { levels = tt; sorted = tt };
  ask_side = asks-IsSide;
  uncrossed = tt;
}

cancel-place_example : cancel (place book (maker 5 7 11)) (maker 5 7 11) ≡ done book
unfolding maker make_order_state
cancel-place_example =
    cancel-place petr book (maker 5 7 11) book-IsBook (omega arith)
      (λ e. absurd (omega arith), (λ e. absurd (omega arith), tt))
