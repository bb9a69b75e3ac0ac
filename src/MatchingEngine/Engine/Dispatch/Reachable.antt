-- ===== src/MatchingEngine/Engine/Dispatch/Reachable.antt =====
-- `send` from the construction of the engine on: sound engines only.
use cpp_demo_build.Prelude.{
  ℕ, ◌<◌, ◌≡◌, refl, false, none, some, List, [], ◌∷◌, ◌++◌, arith, All, sym, subst, ap, ◌∙◌, ◌==◌,
  ==_refl, Bool-cases, Option-cases, inl, inr, eqb, eqb_refl, eq_of_eqb,
}
use cpp_demo_build.OrderEntry.Types.{Symbol, Price}
use cpp_demo_build.OrderEntry.Messages.{
  Request, new_order_single, replace_order, cancel_order, flush,
}
use cpp_demo_build.MatchingEngine.Types.{Address, OrderNode}
use cpp_demo_build.MatchingEngine.Outcome.{Outcome, done, Ends, Ends-bind, ◌>>=◌}
use cpp_demo_build.MatchingEngine.Book.{OrderBook, empty_book, best_bid, best_ask}
use cpp_demo_build.MatchingEngine.Book.Invariant.{book_nodes}
use cpp_demo_build.MatchingEngine.Book.Sound.{best_bid-best_ask}
use cpp_demo_build.MatchingEngine.Engine.{
  Pool, Engine, Books, nodes, books_find, open_books, make_engine, reserve_node_pool, pool_free,
}
use cpp_demo_build.MatchingEngine.Engine.Registry.{IsBooks, empty-IsBook, books_find-IsBook}
use cpp_demo_build.MatchingEngine.Engine.Tracks.{Tracks, entries}
use cpp_demo_build.MatchingEngine.Engine.Invariant.{IsEngine}
use cpp_demo_build.MatchingEngine.Engine.Handlers.Accept.{handle_new_order_single-Ends}
use cpp_demo_build.MatchingEngine.Engine.Dispatch.Flush.{handle_flush_lem, emptied}
use cpp_demo_build.MatchingEngine.Engine.Dispatch.Sound.{
  IsWire, handle_cancel_order-Ends, handle_replace_order-Ends,
}
use cpp_demo_build.MatchingEngine.Engine.Dispatch.{handle_flush, send, send_all}

emptied-none :
    (s : Symbol) (books : Books) → books_find s books ≡ none → books_find s (emptied books) ≡ none
unfolding books_find
emptied-none s [] h = refl
emptied-none s ((t, b) ∷ rest) h = ground (arith, emptied-none s rest)

emptied-IsBooks : (books : Books) → IsBooks books → IsBooks (emptied books)
emptied-IsBooks [] h = tt
emptied-IsBooks ((s, b) ∷ rest) h =
    (empty-IsBook s, emptied-none s rest h.1, emptied-IsBooks rest h.2)

nodes-emptied : (books : Books) → nodes (emptied books) ≡ []
nodes-emptied [] = refl
nodes-emptied ((s, b) ∷ rest) = nodes-emptied rest

nothing-Tracks : Tracks [] [] []
nothing-Tracks = record {
  indexed = λ p. refl;
  pooled = λ p. refl;
  one_key = λ k. omega arith;
  one_slot = λ a. omega arith;
}

handle_flush-Ends : (e : Engine) → IsEngine e → Ends IsEngine (handle_flush e)
handle_flush-Ends e h = rw (handle_flush_lem e h) (record {
  sound = emptied-IsBooks e.books h.sound;
  tracked = subst (λ ns. Tracks [] [] (entries ns)) (sym (nodes-emptied e.books)) nothing-Tracks;
})

module _ (pool : Pool) where
  -- A sound engine answers any request and is sound again: no assertion of the engine or of the
  -- book fails, no `front()` is taken of an empty list, no index entry dangles. The one other end is
  -- the `std::bad_alloc` of the node pool. The quantity of the request is a word of 64 bits.
  pub send-Ends :
      (e : Engine) (request : Request)
      → IsEngine e
      → IsWire request
      → Ends IsEngine (send pool e request)
  unfolding send
  send-Ends e (new_order_single request) h w = handle_new_order_single-Ends pool e request h w
  send-Ends e (replace_order incoming) h w = handle_replace_order-Ends pool e incoming h w
  send-Ends e (cancel_order incoming) h w = handle_cancel_order-Ends e incoming h
  send-Ends e flush h w = handle_flush-Ends e h

  pub send_all-Ends :
      (e : Engine) (requests : List Request)
      → IsEngine e
      → All IsWire requests
      → Ends IsEngine (send_all pool e requests)
  unfolding send_all
  send_all-Ends e [] h w = h
  send_all-Ends e (r ∷ rs) h w =
      Ends-bind IsEngine IsEngine (send pool e r) (λ x. send_all pool x rs) (send-Ends e r h w.0)
        (λ x k. send_all-Ends x rs k w.1)

-- A new symbol at the end of the books.
snoc-none :
    (t s : Symbol) (books : Books)
    → books_find t books ≡ none
    → eqb s t ≡ false
    → books_find t (books ++ (s, empty_book) ∷ []) ≡ none
unfolding books_find
snoc-none t s [] h k = ground arith
snoc-none t s ((u, b) ∷ rest) h k = ground (arith, snoc-none t s rest)

eqb_flip : (s t : Symbol) → eqb s t ≡ false → eqb t s ≡ false
eqb_flip s t h = elim (Bool-cases (eqb t s)) [
  | inr e ↦ e
  | inl e ↦
      let f = subst (λ u. eqb u t ≡ false) (sym (eq_of_eqb t s e)) h in let g = eqb_refl t in cc
]

snoc-IsBooks :
    (s : Symbol) (books : Books)
    → IsBooks books
    → books_find s books ≡ none
    → IsBooks (books ++ (s, empty_book) ∷ [])
unfolding books_find
snoc-IsBooks s [] h k = (empty-IsBook s, refl, tt)
snoc-IsBooks s ((t, b) ∷ rest) h k =
    (h.0, snoc-none t s rest h.1 (eqb_flip t s (missed k)), snoc-IsBooks s rest h.2 (ground arith))
  where
    missed : books_find s ((t, b) ∷ rest) ≡ none → eqb t s ≡ false
    missed k = ground arith

nodes-snoc : (s : Symbol) (books : Books) → nodes (books ++ (s, empty_book) ∷ []) ≡ nodes books
nodes-snoc s [] = refl
nodes-snoc s ((t, b) ∷ rest) = ap (λ (ns : List OrderNode). book_nodes b ++ ns) (nodes-snoc s rest)

open_books_sound :
    (books : Books) (ss : List Symbol)
    → IsBooks books
    → nodes books ≡ []
    → IsBooks (open_books books ss) × (nodes (open_books books ss) ≡ [])
unfolding open_books
open_books_sound books [] h e = (h, e)
open_books_sound books (s ∷ ss) h e = elim (Option-cases (books_find s books)) [
  | inr (b, known) ↦ rw known (open_books_sound books ss h e)
  | inl fresh ↦ rw fresh (
      open_books_sound (books ++ (s, empty_book) ∷ []) ss (snoc-IsBooks s books h fresh)
        (nodes-snoc s books ∙ e))
]

module _ (pool : Pool) where
  reserve_node_pool-Ends :
      (expected : ℕ)
      → Ends (λ (live : List Address). live ≡ []) (reserve_node_pool pool expected [])
  unfolding reserve_node_pool pool_free
  reserve_node_pool-Ends expected = elim (Bool-cases (expected == 0)) [
    | inl none_expected ↦ rw none_expected refl
    | inr some_expected ↦ elim (Option-cases (pool.malloc [])) [
      | inl full ↦ rw (some_expected, full) tt
      | inr (a, got) ↦ rw (some_expected, got, ==_refl a) refl
    ]
  ]

  make_engine-Ends :
      (symbols : List Symbol) (expected : ℕ) → Ends IsEngine (make_engine pool symbols expected)
  unfolding make_engine
  make_engine-Ends symbols expected =
      Ends-bind (λ (live : List Address). live ≡ []) IsEngine (reserve_node_pool pool expected []) _
        (reserve_node_pool-Ends expected)
        (λ live empty.
          let opened = open_books_sound [] symbols tt refl in
          record {
            sound = opened.0;
            tracked =
                subst (λ l. Tracks [] l (entries (nodes (open_books [] symbols)))) (sym empty)
                  (subst (λ ns. Tracks [] [] (entries ns)) (sym opened.1) nothing-Tracks);
          })

  -- The engine as it is after a sequence of requests to a new one.
  abbrev pub run : List Symbol → ℕ → List Request → Outcome Engine
  run symbols expected requests = do e ← make_engine pool symbols expected; send_all pool e requests

  pub run-Ends :
      (symbols : List Symbol) (expected : ℕ) (requests : List Request)
      → All IsWire requests
      → Ends IsEngine (run symbols expected requests)
  run-Ends symbols expected requests w =
      Ends-bind IsEngine IsEngine (make_engine pool symbols expected)
        (λ e. send_all pool e requests) (make_engine-Ends symbols expected)
        (λ e h. send_all-Ends pool e requests h w)

  -- In an engine that has been constructed and has handled any sequence of requests, no book is
  -- crossed: its best bid is below its best ask. The quantities of the requests are words of 64 bits.
  pub run-uncrossed :
      (symbols : List Symbol) (expected : ℕ) (requests : List Request) (e : Engine)
      (symbol : Symbol) (book : OrderBook) (bid ask : Price)
      → All IsWire requests
      → run symbols expected requests ≡ done e
      → books_find symbol e.books ≡ some book
      → best_bid book ≡ some bid
      → best_ask book ≡ some ask
      → bid < ask
  run-uncrossed symbols expected requests e symbol book bid ask w ran found b a =
      let h : IsEngine e = subst (Ends IsEngine) ran (run-Ends symbols expected requests w) in
      best_bid-best_ask symbol book bid ask (books_find-IsBook symbol e.books book h.sound found) b
        a
