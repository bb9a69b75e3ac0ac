-- ===== src/MatchingEngine/Engine/Handlers/Crossing.antt =====
-- `match_orders`: the book, the index and the pool after an aggressor has crossed the other side.
use cpp_demo_build.Prelude.{
  ◌<◌, ◌≤◌, ◌≡◌, refl, Bool, true, false, none, some, List, [], ◌∷◌, ◌++◌, arith, All, All-imp,
  count, count-append, u64_mod, sym, subst,
}
use cpp_demo_build.OrderEntry.Types.{Price, Symbol, Side, buy, sell}
use cpp_demo_build.MatchingEngine.Types.{OrderKey, OrderState, OrderNode}
use cpp_demo_build.MatchingEngine.Book.{OrderBook, SideMap, Entry, best_price, greater, less}
use cpp_demo_build.MatchingEngine.Book.Invariant.{IsSide, IsBook, IsSorted, makers, book_nodes}
use cpp_demo_build.MatchingEngine.Book.Sound.{Fits}
use cpp_demo_build.MatchingEngine.Matching.{match, Matched, with_leaves, crosses}
use cpp_demo_build.MatchingEngine.Matching.SoundSide.{
  match-IsSide, match-prices, match-exhausts, taker-match,
}
use cpp_demo_build.MatchingEngine.Engine.{Engine, index_find, on_trade, on_release}
use cpp_demo_build.MatchingEngine.Engine.Released.{Follows, Follows-bag, match-Kept}
use cpp_demo_build.MatchingEngine.Engine.Handlers.{match_orders, match_on}

-- What `match_orders` gives on a sound book whose nodes, with others, the engine follows.
pub record Crossed (symbol : Symbol) (others : List OrderNode) (key : OrderKey) (taker : OrderState)
    (e : Engine) (r : OrderBook × Matched Engine) : Type 0 where
  pub sound : IsBook symbol r.0
  pub follows : Follows r.1.world (book_nodes r.0 ++ others)
  pub books : r.1.world.books ≡ e.books
  pub unseen : index_find key r.1.world.resting_index ≡ none
  pub terms : r.1.taker ≡ with_leaves taker r.1.taker.leaves_qty
  pub fewer : r.1.taker.leaves_qty ≤ taker.leaves_qty
  pub fits : 0 < r.1.taker.leaves_qty → 0 < taker.price → Fits taker.side taker.price r.0

module _ (taker : OrderState) where
  -- A limit price that does not reach the best ask is below every ask.
  below_best :
      (asks : SideMap)
      → taker.side ≡ buy
      → 0 < taker.price
      → IsSorted less asks
      → ((p : Price) → best_price asks ≡ some p → crosses taker p ≡ false)
      → All (λ (l : Entry). taker.price < l.price) asks
  unfolding best_price crosses
  below_best [] on_buy pos h u = tt
  below_best (l ∷ ls) on_buy pos h u = (
    first,
    All-imp (λ (k : Entry). less l.price k.price ≡ true) (λ (k : Entry). taker.price < k.price)
        (λ k g. ground (arith, first)) ls h.0,
  )
    where
      first : taker.price < l.price
      first = ground (arith, u l.price refl)

  above_best :
      (bids : SideMap)
      → taker.side ≡ sell
      → 0 < taker.price
      → IsSorted greater bids
      → ((p : Price) → best_price bids ≡ some p → crosses taker p ≡ false)
      → All (λ (l : Entry). l.price < taker.price) bids
  unfolding best_price crosses
  above_best [] on_sell pos h u = tt
  above_best (l ∷ ls) on_sell pos h u = (
    first,
    All-imp (λ (k : Entry). greater l.price k.price ≡ true) (λ (k : Entry). k.price < taker.price)
        (λ k g. ground (arith, first)) ls h.0,
  )
    where
      first : l.price < taker.price
      first = ground (arith, u l.price refl)

module _ (symbol : Symbol) (others : List OrderNode) (taker : OrderState) (e : Engine)
    (b : OrderBook) (h : IsBook symbol b) (tb : taker.leaves_qty < u64_mod)
    (f : Follows e (book_nodes b ++ others)) (key : OrderKey)
    (new_key : index_find key e.resting_index ≡ none) where
  swap_sides :
      (p : OrderNode → Bool) (xs ys : List OrderNode)
      → count p ((xs ++ ys) ++ others) ≡ count p (ys ++ (xs ++ others))
  swap_sides p xs ys = omega (
    arith,
    count-append p (xs ++ ys) others,
    count-append p xs ys,
    count-append p xs others,
    count-append p ys (xs ++ others),
  )

  same_sides :
      (p : OrderNode → Bool) (xs ys : List OrderNode)
      → count p ((xs ++ ys) ++ others) ≡ count p (xs ++ (ys ++ others))
  same_sides p xs ys = omega (
    arith,
    count-append p (xs ++ ys) others,
    count-append p xs ys,
    count-append p ys others,
    count-append p xs (ys ++ others),
  )

  cross_asks : taker.side ≡ buy → Crossed symbol others key taker e (match_on buy b taker e)
  unfolding match_on
  cross_asks on_buy = record {
    sound = record {
      bid_side = h.bid_side;
      ask_side = side;
      uncrossed =
          All-imp (λ (bid : Entry). All (λ (ask : Entry). bid.price < ask.price) b.asks)
            (λ (bid : Entry). All (λ (ask : Entry). bid.price < ask.price) m.side_map)
            (λ bid g.
              match-prices on_trade on_release less sell symbol b.asks taker e h.ask_side
                (λ q. bid.price < q) g)
            b.bids h.uncrossed;
    };
    follows =
        Follows-bag m.world (makers m.side_map ++ (makers b.bids ++ others))
          ((makers b.bids ++ makers m.side_map) ++ others)
          (λ p. sym (swap_sides p (makers b.bids) (makers m.side_map))) kept.0;
    books = kept.1;
    unseen = kept.2;
    terms = (taker-match on_trade on_release b.asks taker e tb).0;
    fewer = (taker-match on_trade on_release b.asks taker e tb).1;
    fits = λ left pos.
        subst (λ s. Fits s taker.price (record b { asks = m.side_map })) (sym on_buy)
          (below_best taker m.side_map on_buy pos side.sorted (λ p best.
            match-exhausts on_trade on_release less sell symbol b.asks taker e h.ask_side p tb left
              best));
  }
    where
      m : Matched Engine
      m = match on_trade on_release b.asks taker e

      side : IsSide less sell symbol m.side_map
      side = match-IsSide on_trade on_release less sell symbol b.asks taker e h.ask_side

      kept :
          Follows m.world (makers m.side_map ++ (makers b.bids ++ others))
          × (m.world.books ≡ e.books)
          × (index_find key m.world.resting_index ≡ none)
      kept =
          match-Kept e.books (makers b.bids ++ others) key sell symbol b.asks taker e
            h.ask_side.levels tb
            (
              Follows-bag e (book_nodes b ++ others) (makers b.asks ++ (makers b.bids ++ others))
                  (λ p. swap_sides p (makers b.bids) (makers b.asks)) f,
              refl,
              new_key,
            )

  cross_bids : taker.side ≡ sell → Crossed symbol others key taker e (match_on sell b taker e)
  unfolding match_on
  cross_bids on_sell = record {
    sound = record {
      bid_side = side;
      ask_side = h.ask_side;
      uncrossed =
          match-prices on_trade on_release greater buy symbol b.bids taker e h.bid_side
            (λ q. All (λ (ask : Entry). q < ask.price) b.asks) h.uncrossed;
    };
    follows =
        Follows-bag m.world (makers m.side_map ++ (makers b.asks ++ others))
          ((makers m.side_map ++ makers b.asks) ++ others)
          (λ p. sym (same_sides p (makers m.side_map) (makers b.asks))) kept.0;
    books = kept.1;
    unseen = kept.2;
    terms = (taker-match on_trade on_release b.bids taker e tb).0;
    fewer = (taker-match on_trade on_release b.bids taker e tb).1;
    fits = λ left pos.
        subst (λ s. Fits s taker.price (record b { bids = m.side_map })) (sym on_sell)
          (above_best taker m.side_map on_sell pos side.sorted (λ p best.
            match-exhausts on_trade on_release greater buy symbol b.bids taker e h.bid_side p tb
              left best));
  }
    where
      m : Matched Engine
      m = match on_trade on_release b.bids taker e

      side : IsSide greater buy symbol m.side_map
      side = match-IsSide on_trade on_release greater buy symbol b.bids taker e h.bid_side

      kept :
          Follows m.world (makers m.side_map ++ (makers b.asks ++ others))
          × (m.world.books ≡ e.books)
          × (index_find key m.world.resting_index ≡ none)
      kept =
          match-Kept e.books (makers b.asks ++ others) key buy symbol b.bids taker e
            h.bid_side.levels tb
            (
              Follows-bag e (book_nodes b ++ others) (makers b.bids ++ (makers b.asks ++ others))
                  (λ p. same_sides p (makers b.bids) (makers b.asks)) f,
              refl,
              new_key,
            )

  match_on-Crossed :
      (side : Side)
      → taker.side ≡ side
      → Crossed symbol others key taker e (match_on side b taker e)
  match_on-Crossed buy on_buy = cross_asks on_buy
  match_on-Crossed sell on_sell = cross_bids on_sell

  pub match_orders-Crossed : Crossed symbol others key taker e (match_orders b taker e)
  unfolding match_orders
  match_orders-Crossed = match_on-Crossed taker.side refl
