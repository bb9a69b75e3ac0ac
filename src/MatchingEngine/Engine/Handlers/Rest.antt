-- ===== src/MatchingEngine/Engine/Handlers/Rest.antt =====
-- Resting the residual of an order: the node, its link into the book and its identity entry.
use cpp_demo_build.Prelude.{
  ◌<◌, ◌≤◌, ◌≡◌, ◌≢◌, refl, Bool, true, false, none, some, ◌∷◌, ◌++◌, arith, count-append,
  Option-cases, inl, inr, u64_mod, All,
}
use cpp_demo_build.OrderEntry.Types.{Symbol}
use cpp_demo_build.MatchingEngine.Types.{Address, OrderState, OrderNode, key_of}
use cpp_demo_build.MatchingEngine.Outcome.{Ends}
use cpp_demo_build.MatchingEngine.Book.{OrderBook, place}
use cpp_demo_build.MatchingEngine.Book.Invariant.{IsBook, book_nodes}
use cpp_demo_build.MatchingEngine.Book.Sound.{Fits, place-count, place-IsBook}
use cpp_demo_build.MatchingEngine.Engine.{
  Pool, Engine, index_find, books_find, books_set, allocate_node,
}
use cpp_demo_build.MatchingEngine.Engine.Index.{index_emplace-fresh}
use cpp_demo_build.MatchingEngine.Engine.Tracks.{Tracks-allocate, entries}
use cpp_demo_build.MatchingEngine.Engine.Released.{Follows-bag}
use cpp_demo_build.MatchingEngine.Engine.Registry.{books_find-IsBook}
use cpp_demo_build.MatchingEngine.Engine.Invariant.{
  IsEngine, others, Follows-find, set_book-IsEngine,
}
use cpp_demo_build.MatchingEngine.Engine.Handlers.{rest_order, rest_if}

-- The residual may rest in the book of the symbol.
pub record MayRest (e : Engine) (symbol : Symbol) (book : OrderBook) (order : OrderState)
    : Type 0 where
  pub of_symbol : order.symbol ≡ symbol
  pub priced : 0 < order.price
  pub positive : 0 < order.leaves_qty
  pub within : order.leaves_qty ≤ order.order_qty
  pub bounded : order.order_qty < u64_mod
  pub unseen : index_find (key_of order) e.resting_index ≡ none
  pub fits : Fits order.side order.price book

module _ (pool : Pool) where
  -- The residual in a slot of the pool.
  rest_at-IsEngine :
      (e : Engine) (symbol : Symbol) (book : OrderBook) (order : OrderState) (a : Address)
      → IsEngine e
      → books_find symbol e.books ≡ some book
      → MayRest e symbol book order
      → All (λ b. b ≢ a) e.node_pool
      → (let book' = place book (record { address = a; order = order }) in
          IsEngine (record e {
            node_pool = a ∷ e.node_pool;
            books = books_set symbol book' e.books;
            resting_index = (key_of order, a) ∷ e.resting_index;
          }))
  rest_at-IsEngine e symbol book order a h f r fresh =
      set_book-IsEngine symbol e w book (place book n) h f refl
        (place-IsBook symbol book n sound
          (record {
            on_side = refl;
            of_symbol = r.of_symbol;
            at_price = refl;
            positive = r.positive;
            within = r.within;
            bounded = r.bounded;
          })
          r.priced r.fits)
        (Follows-bag w (n ∷ (book_nodes book ++ others symbol e))
          (book_nodes (place book n) ++ others symbol e)
          (λ p. omega (
            arith,
            place-count symbol book n sound p,
            count-append p (book_nodes book) (others symbol e),
            count-append p (book_nodes (place book n)) (others symbol e),
          ))
          (Tracks-allocate e.resting_index e.node_pool (key_of order) a
            (entries (book_nodes book ++ others symbol e)) (Follows-find symbol e book h f) r.unseen
            fresh))
    where
      n : OrderNode
      n = record { address = a; order = order }

      sound : IsBook symbol book
      sound = books_find-IsBook symbol e.books book h.sound f

      w : Engine
      w = record e {
        node_pool = a ∷ e.node_pool;
        resting_index = (key_of order, a) ∷ e.resting_index;
      }

  rest_order-Ends :
      (e : Engine) (symbol : Symbol) (book : OrderBook) (order : OrderState)
      → IsEngine e
      → books_find symbol e.books ≡ some book
      → MayRest e symbol book order
      → Ends (λ (r : OrderBook × Engine). IsEngine r.1) (rest_order pool e symbol book order)
  unfolding rest_order allocate_node
  rest_order-Ends e symbol book order h f r = elim (Option-cases (pool.malloc e.node_pool)) [
    | inl full ↦ rw full tt
    | inr (a, got) ↦
        rw (got, index_emplace-fresh (key_of order) a e.resting_index r.unseen)
          (rest_at-IsEngine e symbol book order a h f r (pool.malloc_fresh e.node_pool a got))
  ]

  pub rest_if-Ends :
      (t : Bool) (e : Engine) (symbol : Symbol) (book : OrderBook) (order : OrderState)
      → IsEngine e
      → books_find symbol e.books ≡ some book
      → (t ≡ true → MayRest e symbol book order)
      → Ends (λ (r : OrderBook × Engine). IsEngine r.1) (rest_if pool t e symbol book order)
  unfolding rest_if
  rest_if-Ends true e symbol book order h f r = rest_order-Ends e symbol book order h f (r refl)
  rest_if-Ends false e symbol book order h f r = h
