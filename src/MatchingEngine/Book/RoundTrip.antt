-- ===== src/MatchingEngine/Book/RoundTrip.antt =====
-- `cancel` undoes `place`.
use cpp_demo_build.Prelude.{
  ℕ, ◌<◌, ◌≡◌, ◌≢◌, refl, Bool, true, ◌==◌, ==_refl, List, [], ◌∷◌, ◌++◌, arith, All,
  All-append_left, All-append_right, Bool-cases, inl, inr, u64_mod, add64, sub64, ap,
}
use cpp_demo_build.OrderEntry.Types.{Price, Quantity, Symbol, Side, buy, sell}
use cpp_demo_build.MatchingEngine.Types.{OrderNode}
use cpp_demo_build.MatchingEngine.Outcome.{Outcome, done, ◌>>=◌}
use cpp_demo_build.MatchingEngine.Book.{
  Entry, SideMap, OrderBook, unlink, drop_if_empty, place_into, cancel_from, place, place_on,
  cancel, cancel_on, greater, less, push_back,
}
use cpp_demo_build.MatchingEngine.Book.Invariant.{IsLevel, IsBook, makers, book_nodes}

unlink-snoc :
    (ns : List OrderNode) (n : OrderNode)
    → All (λ (k : OrderNode). k.address ≢ n.address) ns
    → unlink n.address (ns ++ n ∷ []) ≡ ns
unfolding unlink
unlink-snoc [] n h = ground arith
unlink-snoc (m ∷ ms) n h = ground (arith, h.0, unlink-snoc ms n h.1)

sub64-add64 : (t q : ℕ) → t < u64_mod → q < u64_mod → sub64 (add64 t q) q ≡ t
unfolding sub64 add64
sub64-add64 t q h k = omega arith

module _ (before : Price → Price → Bool) (side : Side) (symbol : Symbol) (n : OrderNode)
    (bounded : n.leaves_qty < u64_mod) where
  cancel_fresh :
      (ls : SideMap)
      → cancel_from
          (record {
            price = n.price;
            level = push_back (record { orders = []; total_remaining = 0 }) n;
          }
            ∷ ls)
          n
        ≡ done ls
  unfolding cancel_from unlink drop_if_empty
  cancel_fresh ls = rw (==_refl n.price, ==_refl n.address) refl

  drop_if_empty-occupied :
      (price : Price) (total : Quantity) (ns : List OrderNode) (ls : SideMap)
      → ns ≢ []
      → drop_if_empty price total ns ls
        ≡ record { price = price; level = record { orders = ns; total_remaining = total } } ∷ ls
  unfolding drop_if_empty
  drop_if_empty-occupied price total [] ls h = absurd (h refl)
  drop_if_empty-occupied price total (n ∷ ns) ls h = refl

  cancel_joined :
      (l : Entry) (ls : SideMap)
      → (l.price == n.price) ≡ true
      → IsLevel side symbol l
      → All (λ (k : OrderNode). k.address ≢ n.address) l.orders
      → cancel_from (record l { level = push_back l.level n } ∷ ls) n ≡ done (l ∷ ls)
  unfolding cancel_from
  cancel_joined l ls e h free =
      rw
        (
          e,
          unlink-snoc l.orders n free,
          sub64-add64 l.total_remaining n.leaves_qty (omega (arith, h.total)) bounded,
        )
        (ap done (drop_if_empty-occupied l.price l.total_remaining l.orders ls h.occupied))

  cancel_from-place_into :
      (m : SideMap)
      → All (IsLevel side symbol) m
      → All (λ (k : OrderNode). k.address ≢ n.address) (makers m)
      → cancel_from (place_into before m n) n ≡ done m
  unfolding place_into cancel_from
  cancel_from-place_into [] h free = cancel_fresh []
  cancel_from-place_into (l ∷ ls) h free = elim (Bool-cases (l.price == n.price)) [
    | inl e ↦
        rw (e, place_into)
          (cancel_joined l ls e h.0
            (All-append_left (λ (k : OrderNode). k.address ≢ n.address) l.orders (makers ls) free))
    | inr e ↦ elim (Bool-cases (before n.price l.price)) [
      | inl f ↦ rw (e, f, place_into) (cancel_fresh (l ∷ ls))
      | inr f ↦
          rw (e, f, place_into)
            (rw (e, cancel_from)
              (ap (λ (o : Outcome SideMap). o >>= λ rest. done (l ∷ rest))
                (cancel_from-place_into ls h.1 (
                  All-append_right (λ (k : OrderNode). k.address ≢ n.address) l.orders (makers ls)
                    free))))
    ]
  ]

-- Cancelling an order that was just placed gives the book back as it was: same levels, same FIFOs,
-- same running totals. The book is sound, the quantity is a word of 64 bits, and no linked node has
-- the address of the new one.
pub cancel-place :
    (symbol : Symbol) (b : OrderBook) (n : OrderNode)
    → IsBook symbol b
    → n.leaves_qty < u64_mod
    → All (λ (k : OrderNode). k.address ≢ n.address) (book_nodes b)
    → cancel (place b n) n ≡ done b
unfolding cancel place cancel_on place_on
cancel-place symbol b n h bounded free = on_side n.side
  where
    on_side : (side : Side) → cancel_on side (place_on side b n) n ≡ done b
    on_side buy =
        ap (λ (o : Outcome SideMap). o >>= λ bids. done (record b { bids = bids }))
          (cancel_from-place_into greater buy symbol n bounded b.bids h.bid_side.levels (
            All-append_left (λ (k : OrderNode). k.address ≢ n.address) (makers b.bids)
              (makers b.asks) free))
    on_side sell =
        ap (λ (o : Outcome SideMap). o >>= λ asks. done (record b { asks = asks }))
          (cancel_from-place_into less sell symbol n bounded b.asks h.ask_side.levels (
            All-append_right (λ (k : OrderNode). k.address ≢ n.address) (makers b.bids)
              (makers b.asks) free))
