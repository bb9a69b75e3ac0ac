-- ===== src/MatchingEngine/Book/Sound.antt =====
-- `place` and `cancel` keep a book sound.
use cpp_demo_build.Prelude.{
  ◌+◌, ◌<◌, ◌≡◌, Bool, some, [], ◌∷◌, arith, All, All-append, All-imp, count, count-append, bit,
  inl, inr, ap, ◌∙◌,
}
use cpp_demo_build.OrderEntry.Types.{Price, Symbol, Side, buy, sell}
use cpp_demo_build.MatchingEngine.Types.{OrderNode}
use cpp_demo_build.MatchingEngine.Outcome.{Outcome, done, ◌>>=◌}
use cpp_demo_build.MatchingEngine.Book.{
  Entry, SideMap, OrderBook, greater, less, place, place_on, place_into, cancel, cancel_on,
  best_price, best_bid, best_ask,
}
use cpp_demo_build.MatchingEngine.Book.Invariant.{IsResting, IsLevel, IsBook, makers, book_nodes}
use cpp_demo_build.MatchingEngine.Book.Linked.{node_at, node_at-All, node_at-append}
use cpp_demo_build.MatchingEngine.Book.Place.{
  greater-IsOrder, less-IsOrder, place_into-count, place_into-prices, place_into-IsSide,
}
use cpp_demo_build.MatchingEngine.Book.Cancel.{cancel_from-Cancelled}

pub makers-on_side :
    (side : Side) (symbol : Symbol) (m : SideMap)
    → All (IsLevel side symbol) m
    → All (λ (n : OrderNode). (n.side ≡ side) × (n.symbol ≡ symbol)) (makers m)
makers-on_side side symbol [] h = tt
makers-on_side side symbol (l ∷ ls) h =
    All-append (λ (n : OrderNode). (n.side ≡ side) × (n.symbol ≡ symbol)) l.orders (makers ls)
      (All-imp (IsResting side symbol l.price)
        (λ (n : OrderNode). (n.side ≡ side) × (n.symbol ≡ symbol)) (λ n r. (r.on_side, r.of_symbol))
        l.orders h.0.resting)
      (makers-on_side side symbol ls h.1)

-- Below every ask, from the asks' side.
below_asks :
    (p : Price) (bids : SideMap)
    → All (λ (l : Entry). l.price < p) bids
    → (asks : SideMap)
    → All (λ (bid : Entry). All (λ (ask : Entry). bid.price < ask.price) asks) bids
    → All
        (λ (bid : Entry). (bid.price < p) × All (λ (ask : Entry). bid.price < ask.price) asks)
        bids
below_asks p [] h asks k = tt
below_asks p (l ∷ ls) h asks k = ((h.0, k.0), below_asks p ls h.1 asks k.1)

-- The level that an order of a price would join does not cross the other side.
abbrev pub Fits : Side → Price → OrderBook → Type 0
Fits buy p b = All (λ (ask : Entry). p < ask.price) b.asks
Fits sell p b = All (λ (bid : Entry). bid.price < p) b.bids

module _ (symbol : Symbol) (b : OrderBook) (n : OrderNode) (h : IsBook symbol b) where
  place_on-count :
      (p : OrderNode → Bool) (side : Side)
      → count p (book_nodes (place_on side b n)) ≡ bit (p n) + count p (book_nodes b)
  unfolding place_on
  place_on-count p buy = omega (
    arith,
    place_into-count greater p b.bids n,
    count-append p (makers b.bids) (makers b.asks),
    count-append p (makers (place_into greater b.bids n)) (makers b.asks),
  )
  place_on-count p sell = omega (
    arith,
    place_into-count less p b.asks n,
    count-append p (makers b.bids) (makers b.asks),
    count-append p (makers b.bids) (makers (place_into less b.asks n)),
  )

  pub place-count :
      (p : OrderNode → Bool) → count p (book_nodes (place b n)) ≡ bit (p n) + count p (book_nodes b)
  unfolding place
  place-count p = place_on-count p n.side

  place_on-IsBook :
      (side : Side)
      → IsResting side symbol n.price n
      → 0 < n.price
      → Fits side n.price b
      → IsBook symbol (place_on side b n)
  unfolding place_on
  place_on-IsBook buy r pos f = record {
    bid_side = place_into-IsSide greater buy symbol b.bids n greater-IsOrder h.bid_side r pos;
    ask_side = h.ask_side;
    uncrossed =
        place_into-prices greater (λ q. All (λ (ask : Entry). q < ask.price) b.asks) b.bids n
          h.uncrossed f;
  }
  place_on-IsBook sell r pos f = record {
    bid_side = h.bid_side;
    ask_side = place_into-IsSide less sell symbol b.asks n less-IsOrder h.ask_side r pos;
    uncrossed =
        All-imp
          (λ (bid : Entry).
            (bid.price < n.price) × All (λ (ask : Entry). bid.price < ask.price) b.asks)
          (λ (bid : Entry). All (λ (ask : Entry). bid.price < ask.price) (place_into less b.asks n))
          (λ bid g. place_into-prices less (λ q. bid.price < q) b.asks n g.1 g.0) b.bids
          (below_asks n.price b.bids f b.asks h.uncrossed);
  }

  pub place-IsBook :
      IsResting n.side symbol n.price n
      → 0 < n.price
      → Fits n.side n.price b
      → IsBook symbol (place b n)
  unfolding place
  place-IsBook = place_on-IsBook n.side

  -- What `cancel` gives for a node that is linked in the book.
  pub record Dropped : Type 0 where
    pub rest : OrderBook
    pub returns : cancel b n ≡ done rest
    pub left :
        (p : OrderNode → Bool) → bit (p n) + count p (book_nodes rest) ≡ count p (book_nodes b)
    pub sound : IsBook symbol rest

  cancel_bid : n.side ≡ buy → node_at n.address (makers b.bids) ≡ some n → Dropped
  unfolding cancel cancel_on
  cancel_bid on_buy e =
      let c = cancel_from-Cancelled buy symbol greater greater-IsOrder b.bids n h.bid_side e in
      record {
        rest = record b { bids = c.rest };
        returns =
            ap (λ s. cancel_on s b n) on_buy
            ∙ ap (λ (r : Outcome SideMap). r >>= λ bids. done (record b { bids = bids })) c.returns;
        left = λ p. omega (
          arith,
          c.left p,
          count-append p (makers b.bids) (makers b.asks),
          count-append p (makers c.rest) (makers b.asks),
        );
        sound = record {
          bid_side = c.sound;
          ask_side = h.ask_side;
          uncrossed = c.prices (λ q. All (λ (ask : Entry). q < ask.price) b.asks) h.uncrossed;
        };
      }

  cancel_ask : n.side ≡ sell → node_at n.address (makers b.asks) ≡ some n → Dropped
  unfolding cancel cancel_on
  cancel_ask on_sell e =
      let c = cancel_from-Cancelled sell symbol less less-IsOrder b.asks n h.ask_side e in
      record {
        rest = record b { asks = c.rest };
        returns =
            ap (λ s. cancel_on s b n) on_sell
            ∙ ap (λ (r : Outcome SideMap). r >>= λ asks. done (record b { asks = asks })) c.returns;
        left = λ p. omega (
          arith,
          c.left p,
          count-append p (makers b.bids) (makers b.asks),
          count-append p (makers b.bids) (makers c.rest),
        );
        sound = record {
          bid_side = h.bid_side;
          ask_side = c.sound;
          uncrossed =
              All-imp (λ (bid : Entry). All (λ (ask : Entry). bid.price < ask.price) b.asks)
                (λ (bid : Entry). All (λ (ask : Entry). bid.price < ask.price) c.rest)
                (λ bid g. c.prices (λ q. bid.price < q) g) b.bids h.uncrossed;
        };
      }

  -- A linked node is found on its side, and `cancel` takes exactly it off the book.
  pub cancel-Dropped : node_at n.address (book_nodes b) ≡ some n → Dropped
  cancel-Dropped e = elim (node_at-append n.address (makers b.bids) (makers b.asks) n e) [
    | inl bid ↦
        cancel_bid
          (node_at-All (λ (k : OrderNode). (k.side ≡ buy) × (k.symbol ≡ symbol)) n.address
            (makers b.bids) n bid (makers-on_side buy symbol b.bids h.bid_side.levels)).0
          bid
    | inr (_, ask) ↦
        cancel_ask
          (node_at-All (λ (k : OrderNode). (k.side ≡ sell) × (k.symbol ≡ symbol)) n.address
            (makers b.asks) n ask (makers-on_side sell symbol b.asks h.ask_side.levels)).0
          ask
  ]

-- The best bid of a sound book is below its best ask.
pub best_bid-best_ask :
    (symbol : Symbol) (b : OrderBook) (bid ask : Price)
    → IsBook symbol b
    → best_bid b ≡ some bid
    → best_ask b ≡ some ask
    → bid < ask
unfolding best_bid best_ask best_price
best_bid-best_ask symbol b bid ask h e f = first b.bids b.asks h.uncrossed e f
  where
    first :
        (bids asks : SideMap)
        → All (λ (l : Entry). All (λ (k : Entry). l.price < k.price) asks) bids
        → best_price bids ≡ some bid
        → best_price asks ≡ some ask
        → bid < ask
    first [] asks u e f = cc
    first (l ∷ ls) [] u e f = cc
    first (l ∷ ls) (k ∷ ks) u e f = ground (arith, u.0.0)
