-- ===== src/MatchingEngine/Engine/Dispatch/Flush.antt =====
-- `handle(flush)` takes every order out of the books, the index and the pool.
use cpp_demo_build.Prelude.{
  ◌≡◌, ◌≢◌, refl, List, [], ◌∷◌, ◌++◌, arith, All, count, subst, ap, ◌∙◌, true,
}
use cpp_demo_build.OrderEntry.Types.{Symbol, Side, buy, sell}
use cpp_demo_build.MatchingEngine.Types.{OrderNode}
use cpp_demo_build.MatchingEngine.Outcome.{Outcome, done, ◌>>=◌}
use cpp_demo_build.MatchingEngine.Book.{Entry, SideMap, empty_book}
use cpp_demo_build.MatchingEngine.Book.Invariant.{IsLevel, makers}
use cpp_demo_build.MatchingEngine.Engine.{Engine, Books, nodes, on_release, release_node}
use cpp_demo_build.MatchingEngine.Engine.Tracks.{Tracks-release, entries, entry_of}
use cpp_demo_build.MatchingEngine.Engine.Released.{Follows}
use cpp_demo_build.MatchingEngine.Engine.Registry.{IsBooks}
use cpp_demo_build.MatchingEngine.Engine.Invariant.{IsEngine}
use cpp_demo_build.MatchingEngine.Engine.Dispatch.{
  drain_orders, drain_side, flush_books, handle_flush,
}

-- The books of a flushed engine: the same symbols, all empty.
abbrev pub emptied : Books → Books
emptied [] = []
emptied ((s, b) ∷ rest) = (s, empty_book) ∷ emptied rest

-- An engine that differs in the index and the pool only, and follows what is left.
record Drained (e : Engine) (rest : List OrderNode) (f : Engine) : Type 0 where
  differs : f ≡ record e { resting_index = f.resting_index; node_pool = f.node_pool }
  follows : Follows f rest

Drained-trans :
    (e f g : Engine) (ms ns : List OrderNode) → Drained e ms f → Drained f ns g → Drained e ns g
Drained-trans e f g ms ns d c = record {
  differs =
      c.differs
      ∙ ap (λ (x : Engine). record x { resting_index = g.resting_index; node_pool = g.node_pool })
          d.differs;
  follows = c.follows;
}

drain_orders-Drained :
    (e : Engine) (ns rest : List OrderNode)
    → Follows e (ns ++ rest)
    → Drained e rest (drain_orders e ns)
unfolding drain_orders on_release release_node
drain_orders-Drained e [] rest h = record { differs = refl; follows = h }
drain_orders-Drained e (n ∷ ns) rest h =
    Drained-trans e (on_release n e) (drain_orders (on_release n e) ns) (ns ++ rest) rest
      (record { differs = refl; follows = released })
      (drain_orders-Drained (on_release n e) ns rest released)
  where
    released : Follows (on_release n e) (ns ++ rest)
    released =
        Tracks-release e.resting_index e.node_pool (entry_of n).0 n.address (entries (ns ++ rest)) h

record DrainedTo (e : Engine) (rest : List OrderNode) (o : Outcome Engine) : Type 0 where
  engine : Engine
  returns : o ≡ done engine
  drained : Drained e rest engine

append_assoc : (xs ys zs : List OrderNode) → (xs ++ ys) ++ zs ≡ xs ++ (ys ++ zs)
append_assoc [] ys zs = refl
append_assoc (x ∷ xs) ys zs = ap (λ (l : List OrderNode). x ∷ l) (append_assoc xs ys zs)

drain_side-cons :
    (e : Engine) (l : Entry) (ls : SideMap)
    → l.orders ≢ []
    → drain_side e (l ∷ ls) ≡ drain_side (drain_orders e l.orders) ls
unfolding drain_side
drain_side-cons e l ls occupied = front l.orders refl
  where
    front :
        (ns : List OrderNode)
        → l.orders ≡ ns
        → drain_side e (l ∷ ls) ≡ drain_side (drain_orders e l.orders) ls
    front [] q = absurd (occupied q)
    front (n ∷ ns) q = rw (q, drain_side) (ap (λ xs. drain_side (drain_orders e xs) ls) q)

drain_side-DrainedTo :
    (side : Side) (symbol : Symbol) (e : Engine) (m : SideMap) (rest : List OrderNode)
    → All (IsLevel side symbol) m
    → Follows e (makers m ++ rest)
    → DrainedTo e rest (drain_side e m)
unfolding drain_side
drain_side-DrainedTo side symbol e [] rest h f = record {
  engine = e;
  returns = refl;
  drained = record { differs = refl; follows = f };
}
drain_side-DrainedTo side symbol e (l ∷ ls) rest h f =
    let d =
      drain_orders-Drained e l.orders (makers ls ++ rest)
        (subst (Follows e) (append_assoc l.orders (makers ls) rest) f) in
    let r = drain_side-DrainedTo side symbol (drain_orders e l.orders) ls rest h.1 d.follows in
    record {
      engine = r.engine;
      returns = drain_side-cons e l ls h.0.occupied ∙ r.returns;
      drained =
          Drained-trans e (drain_orders e l.orders) r.engine (makers ls ++ rest) rest d r.drained;
    }

record Flushed (e : Engine) (books : Books) (o : Outcome (Engine × Books)) : Type 0 where
  engine : Engine
  returns : o ≡ done (engine, emptied books)
  drained : Drained e [] engine

flush_books-Flushed :
    (e : Engine) (books : Books)
    → IsBooks books
    → Follows e (nodes books)
    → Flushed e books (flush_books e books)
unfolding flush_books
flush_books-Flushed e [] h f = record {
  engine = e;
  returns = refl;
  drained = record { differs = refl; follows = f };
}
flush_books-Flushed e ((s, b) ∷ rest) h f =
    let r = flush_books-Flushed asks.engine rest h.2 asks.drained.follows in
    record {
      engine = r.engine;
      returns =
          ap (λ (o : Outcome Engine). o >>= λ x. drain_side x b.asks >>= after) bids.returns
          ∙ ap (λ (o : Outcome Engine). o >>= after) asks.returns
          ∙ ap (λ (o : Outcome (Engine × Books)). o >>= last) r.returns;
      drained =
          Drained-trans e asks.engine r.engine (nodes rest) []
            (Drained-trans e bids.engine asks.engine (makers b.asks ++ nodes rest) (nodes rest)
              bids.drained asks.drained)
            r.drained;
    }
  where
    bids : DrainedTo e (makers b.asks ++ nodes rest) (drain_side e b.bids)
    bids =
        drain_side-DrainedTo buy s e b.bids (makers b.asks ++ nodes rest) h.0.bid_side.levels
          (subst (Follows e) (append_assoc (makers b.bids) (makers b.asks) (nodes rest)) f)

    asks : DrainedTo bids.engine (nodes rest) (drain_side bids.engine b.asks)
    asks =
        drain_side-DrainedTo sell s bids.engine b.asks (nodes rest) h.0.ask_side.levels
          bids.drained.follows

    last : Engine × Books → Outcome (Engine × Books)
    last x = done (x.0, (s, empty_book) ∷ x.1)

    after : Engine → Outcome (Engine × Books)
    after x = flush_books x rest >>= last

nil_of_count : {A : Type 0} → (xs : List A) → count (λ x. true) xs ≡ 0 → xs ≡ []
nil_of_count [] h = refl
nil_of_count (x ∷ xs) h = absurd (omega arith)

-- A flush of a sound engine empties every book, the index and the pool, keeps the configured
-- symbols and the next identities, and emits nothing.
pub handle_flush_lem :
    (e : Engine)
    → IsEngine e
    → handle_flush e
      ≡ done (record e { books = emptied e.books; resting_index = []; node_pool = [] })
unfolding handle_flush
handle_flush_lem e h =
    let r = flush_books-Flushed e e.books h.sound h.tracked in
    let i = nil_of_count r.engine.resting_index (r.drained.follows.indexed (λ x. true)) in
    let p = nil_of_count r.engine.node_pool (r.drained.follows.pooled (λ x. true)) in
    ap (λ (o : Outcome (Engine × Books)). o >>= λ x. done (record x.0 { books = x.1 })) r.returns
    ∙ ap (λ (x : Engine). done (record x { books = emptied e.books })) r.drained.differs
    ∙ λ t. done (record e { books = emptied e.books; resting_index = i t; node_pool = p t })
