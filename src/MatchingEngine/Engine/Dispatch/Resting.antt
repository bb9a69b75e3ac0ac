-- ===== src/MatchingEngine/Engine/Dispatch/Resting.antt =====
-- A resting order that a request names by its key: found through the index, and taken out.
use cpp_demo_build.Prelude.{
  ◌≡◌, refl, none, some, Option, ◌∷◌, ◌++◌, arith, count-append, count, bit, Bool, ◌+◌, sym, subst,
  ap, ◌∙◌,
}
use cpp_demo_build.OrderEntry.Types.{ExecType, OrdStatus}
use cpp_demo_build.OrderEntry.Messages.{CancelOrder}
use cpp_demo_build.MatchingEngine.Types.{Address, OrderKey, OrderNode, key_of, key_eq}
use cpp_demo_build.MatchingEngine.Outcome.{
  Outcome, done, Ends, ◌>>=◌, or_fault, dangling, assertion_failed,
}
use cpp_demo_build.MatchingEngine.Book.{OrderBook, cancel}
use cpp_demo_build.MatchingEngine.Book.Invariant.{book_nodes}
use cpp_demo_build.MatchingEngine.Book.Linked.{node_at}
use cpp_demo_build.MatchingEngine.Book.Sound.{Dropped, cancel-Dropped}
use cpp_demo_build.MatchingEngine.Engine.{
  Engine, nodes, deref, index_find, index_erase, books_find, pool_free, release_node,
  emit_execution_report,
}
use cpp_demo_build.MatchingEngine.Engine.Index.{
  index_find-some, index_find-unseen, is_entry, has_key, key_eq_refl,
}
use cpp_demo_build.MatchingEngine.Engine.Tracks.{Tracks, Tracks-release, entries, node_at-entry}
use cpp_demo_build.MatchingEngine.Engine.Released.{Follows, Follows-bag}
use cpp_demo_build.MatchingEngine.Engine.Registry.{books_find-IsBook, books_find-node}
use cpp_demo_build.MatchingEngine.Engine.Invariant.{
  IsEngine, SameState-IsEngine, emit_execution_report-SameState, emit_mbo_book_update-SameState,
  if-IsEngine, others, Follows-find, nodes-find, nodes-set, set_book-IsEngine,
}
use cpp_demo_build.MatchingEngine.Engine.Handlers.{set_book, remove_resting, affects_top}
use cpp_demo_build.MatchingEngine.Engine.Dispatch.{orig_key, cancel_resting}

-- The node of an index entry: linked in the book of its symbol, under its own key.
pub record Linked (e : Engine) (k : OrderKey) (a : Address) : Type 0 where
  pub node : OrderNode
  pub book : OrderBook
  pub read : deref e a ≡ done node
  pub keyed : key_of node.order ≡ k
  pub book_found : books_find node.symbol e.books ≡ some book
  pub linked : node_at node.address (book_nodes book) ≡ some node

pub index_find-Linked :
    (e : Engine) (k : OrderKey) (a : Address)
    → IsEngine e
    → index_find k e.resting_index ≡ some a
    → Linked e k a
unfolding deref
index_find-Linked e k a h found =
    let listed = index_find-some k a e.resting_index found in
    let (n, at, key, address) =
      node_at-entry k a (nodes e.books) (omega (arith, listed, h.tracked.indexed (is_entry k a)))
        (h.tracked.one_slot a) in
    let (b, f, g) = books_find-node a e.books n h.sound at in
    record {
      node = n;
      book = b;
      read = ap (λ (o : Option OrderNode). or_fault o dangling) at;
      keyed = key;
      book_found = f;
      linked = subst (λ x. node_at x (book_nodes b) ≡ some n) (sym address) g;
    }

-- `remove_resting` on such a node does not fail, and takes exactly it out.
pub record Removed (e : Engine) (k : OrderKey) (n : OrderNode) : Type 0 where
  pub book : OrderBook
  pub engine : Engine
  pub returns : remove_resting e k n ≡ done (book, engine)
  pub sound : IsEngine engine
  pub gone : index_find k engine.resting_index ≡ none
  pub left :
      (p : OrderNode → Bool) → bit (p n) + count p (nodes engine.books) ≡ count p (nodes e.books)

pub remove_resting-Removed :
    (e : Engine) (k : OrderKey) (n : OrderNode) (b : OrderBook)
    → IsEngine e
    → key_of n.order ≡ k
    → books_find n.symbol e.books ≡ some b
    → node_at n.address (book_nodes b) ≡ some n
    → Removed e k n
unfolding remove_resting release_node
remove_resting-Removed e k n b h key f at = record {
  book = d.rest;
  engine = set_book w n.symbol d.rest;
  returns =
      ap (λ (o : Option OrderBook). or_fault o assertion_failed >>= after) f
      ∙ ap (λ (o : Outcome OrderBook). o >>= write) d.returns;
  sound = set_book-IsEngine n.symbol e w b d.rest h f refl d.sound released;
  gone =
      index_find-unseen k w.resting_index
        (omega (arith, released.indexed (has_key k), held.one_key k, self));
  left = λ p. omega (
    arith,
    d.left p,
    nodes-find n.symbol e b p f,
    nodes-set n.symbol e b d.rest p f,
    count-append p (book_nodes b) (others n.symbol e),
    count-append p (book_nodes d.rest) (others n.symbol e),
  );
}
  where
    d : Dropped n.symbol b n (books_find-IsBook n.symbol e.books b h.sound f)
    d = cancel-Dropped n.symbol b n (books_find-IsBook n.symbol e.books b h.sound f) at

    w : Engine
    w = record e {
      resting_index = index_erase k e.resting_index;
      node_pool = pool_free n.address e.node_pool;
    }

    held :
        Tracks e.resting_index e.node_pool
          ((k, n.address) ∷ entries (book_nodes d.rest ++ others n.symbol e))
    held =
        subst
          (λ j.
            Tracks e.resting_index e.node_pool
              ((j, n.address) ∷ entries (book_nodes d.rest ++ others n.symbol e)))
          key
          (Follows-bag e (book_nodes b ++ others n.symbol e)
            (n ∷ (book_nodes d.rest ++ others n.symbol e))
            (λ p. omega (
              arith,
              d.left p,
              count-append p (book_nodes b) (others n.symbol e),
              count-append p (book_nodes d.rest) (others n.symbol e),
            ))
            (Follows-find n.symbol e b h f))

    released : Follows w (book_nodes d.rest ++ others n.symbol e)
    released =
        Tracks-release e.resting_index e.node_pool k n.address
          (entries (book_nodes d.rest ++ others n.symbol e)) held

    self : bit (key_eq k k) ≡ 1
    self = rw (key_eq_refl k) refl

    write : OrderBook → Outcome (OrderBook × Engine)
    write c = done (c, set_book w n.symbol c)

    after : OrderBook → Outcome (OrderBook × Engine)
    after c = cancel c n >>= write

pub cancel_resting-Ends :
    (e : Engine) (incoming : CancelOrder) (n : OrderNode)
    → Removed e (orig_key incoming) n
    → Ends IsEngine (cancel_resting e incoming n)
unfolding cancel_resting
cancel_resting-Ends e incoming n r =
    let e2 =
      emit_execution_report r.engine n.order ExecType.canceled OrdStatus.canceled
        (some incoming.orig_cl_ord_id) none none in
    let k =
      SameState-IsEngine r.engine e2
        (emit_execution_report-SameState r.engine n.order ExecType.canceled OrdStatus.canceled
          (some incoming.orig_cl_ord_id) none none)
        r.sound in
    rw r.returns (
      if-IsEngine (affects_top e n.order) _ e2
        (SameState-IsEngine e2 _ (emit_mbo_book_update-SameState e2 r.book n.side n.security_id) k)
        k)
