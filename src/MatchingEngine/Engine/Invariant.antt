-- ===== src/MatchingEngine/Engine/Invariant.antt =====
-- What the engine is between two requests, and what its emissions leave alone.
use cpp_demo_build.Prelude.{
  ◌≡◌, refl, Bool, true, false, some, Option, List, [], ◌∷◌, ◌++◌, arith, ltb, count, count-append,
  if◌then◌else◌, sym, subst, Bool-cases, Option-cases, inl, inr,
}
use cpp_demo_build.OrderEntry.Types.{
  Symbol, ExecType, OrdStatus, OrigClOrdId, Quantity, Price, Side, SecurityId,
}
use cpp_demo_build.OrderEntry.Messages.{NewOrderSingle}
use cpp_demo_build.MatchingEngine.Types.{Address, OrderState, OrderNode}
use cpp_demo_build.MatchingEngine.Book.{OrderBook, empty_book}
use cpp_demo_build.MatchingEngine.Book.Invariant.{IsBook, book_nodes}
use cpp_demo_build.MatchingEngine.Matching.{ExecutionSummary}
use cpp_demo_build.MatchingEngine.Engine.{
  Engine, Books, Index, nodes, books_find, books_set, emit_execution_report, emit_mbo_book_update,
}
use cpp_demo_build.MatchingEngine.Engine.Registry.{IsBooks, books_set-IsBooks, books_set-count}
use cpp_demo_build.MatchingEngine.Engine.Tracks.{Tracks, entries}
use cpp_demo_build.MatchingEngine.Engine.Released.{Follows, Follows-bag}
use cpp_demo_build.MatchingEngine.Engine.Handlers.{report_execution, report_if_executed, set_book}

-- The books are sound, and the index and the pool hold exactly their nodes.
pub record IsState (books : Books) (index : Index) (pool : List Address) : Type 0 where
  pub sound : IsBooks books
  pub tracked : Tracks index pool (entries (nodes books))

abbrev pub IsEngine : Engine → Type 0
IsEngine e = IsState e.books e.resting_index e.node_pool

-- The two engines differ in what they emitted and in the next identities only.
pub record SameState (e f : Engine) : Type 0 where
  pub same_books : f.books ≡ e.books
  pub same_index : f.resting_index ≡ e.resting_index
  pub same_pool : f.node_pool ≡ e.node_pool

pub SameState-Follows :
    (e f : Engine) (ns : List OrderNode) → SameState e f → Follows e ns → Follows f ns
SameState-Follows e f ns s h =
    subst (λ i. Tracks i f.node_pool (entries ns)) (sym s.same_index)
      (subst (λ p. Tracks e.resting_index p (entries ns)) (sym s.same_pool) h)

pub SameState-IsEngine : (e f : Engine) → SameState e f → IsEngine e → IsEngine f
SameState-IsEngine e f s h = record {
  sound = subst IsBooks (sym s.same_books) h.sound;
  tracked =
      subst (λ b. Follows f (nodes b)) (sym s.same_books)
        (SameState-Follows e f (nodes e.books) s h.tracked);
}

pub SameState-refl : (e : Engine) → SameState e e
SameState-refl e = record { same_books = refl; same_index = refl; same_pool = refl }

pub emit_execution_report-SameState :
    (e : Engine) (order : OrderState) (x : ExecType) (s : OrdStatus) (o : Option OrigClOrdId)
    (q : Option Quantity) (p : Option Price)
    → SameState e (emit_execution_report e order x s o q p)
unfolding emit_execution_report
emit_execution_report-SameState e order x s o q p = record {
  same_books = refl;
  same_index = refl;
  same_pool = refl;
}

pub emit_mbo_book_update-SameState :
    (e : Engine) (b : OrderBook) (s : Side) (i : SecurityId)
    → SameState e (emit_mbo_book_update e b s i)
unfolding emit_mbo_book_update
emit_mbo_book_update-SameState e b s i = record {
  same_books = refl;
  same_index = refl;
  same_pool = refl;
}

pub report_if_executed-SameState :
    (e : Engine) (request : NewOrderSingle) (order : OrderState) (summary : ExecutionSummary)
    → SameState e (report_if_executed e request order summary)
unfolding report_if_executed report_execution emit_execution_report
report_if_executed-SameState e request order summary = elim (Bool-cases (ltb 0 summary.trades)) [
  | inr f ↦ rw f (record { same_books = refl; same_index = refl; same_pool = refl })
  | inl f ↦ elim (Option-cases summary.last_traded) [
    | inl g ↦ rw (f, g) (record { same_books = refl; same_index = refl; same_pool = refl })
    | inr (p, g) ↦ rw (f, g) (record { same_books = refl; same_index = refl; same_pool = refl })
  ]
]

-- A test picks one of two engines of the same state.
pub if-IsEngine :
    (t : Bool) (e f : Engine) → IsEngine e → IsEngine f → IsEngine (if t then e else f)
if-IsEngine true e f h k = h
if-IsEngine false e f h k = k

-- All linked nodes but those of the book of a symbol.
abbrev pub others : Symbol → Engine → List OrderNode
others symbol e = nodes (books_set symbol empty_book e.books)

-- The nodes of a book and the others are all the nodes.
pub nodes-set :
    (symbol : Symbol) (e : Engine) (b c : OrderBook) (p : OrderNode → Bool)
    → books_find symbol e.books ≡ some b
    → count p (nodes (books_set symbol c e.books)) ≡ count p (book_nodes c ++ others symbol e)
nodes-set symbol e b c p h = omega (
  arith,
  books_set-count p symbol b c e.books h,
  books_set-count p symbol b empty_book e.books h,
  count-append p (book_nodes c) (others symbol e),
)

pub nodes-find :
    (symbol : Symbol) (e : Engine) (b : OrderBook) (p : OrderNode → Bool)
    → books_find symbol e.books ≡ some b
    → count p (nodes e.books) ≡ count p (book_nodes b ++ others symbol e)
nodes-find symbol e b p h = omega (
  arith,
  books_set-count p symbol b empty_book e.books h,
  count-append p (book_nodes b) (others symbol e),
)

pub Follows-find :
    (symbol : Symbol) (e : Engine) (b : OrderBook)
    → IsEngine e
    → books_find symbol e.books ≡ some b
    → Follows e (book_nodes b ++ others symbol e)
Follows-find symbol e b h f =
    Follows-bag e (nodes e.books) (book_nodes b ++ others symbol e) (λ p. nodes-find symbol e b p f)
      h.tracked

-- Writing back a sound book whose nodes, with the others, are followed.
pub set_book-IsEngine :
    (symbol : Symbol) (e w : Engine) (b c : OrderBook)
    → IsEngine e
    → books_find symbol e.books ≡ some b
    → w.books ≡ e.books
    → IsBook symbol c
    → Follows w (book_nodes c ++ others symbol e)
    → IsEngine (set_book w symbol c)
set_book-IsEngine symbol e w b c h f same k t = record {
  sound =
      subst (λ x. IsBooks (books_set symbol c x)) (sym same)
        (books_set-IsBooks symbol c e.books h.sound k);
  tracked =
      subst (λ x. Follows w (nodes (books_set symbol c x))) (sym same)
        (Follows-bag w (book_nodes c ++ others symbol e) (nodes (books_set symbol c e.books))
          (λ p. sym (nodes-set symbol e b c p f)) t);
}

pub books_find-set :
    (s : Symbol) (b c : OrderBook) (books : Books)
    → books_find s books ≡ some b
    → books_find s (books_set s c books) ≡ some c
unfolding books_find books_set
books_find-set s b c [] h = cc
books_find-set s b c ((t, d) ∷ rest) h = ground (arith, books_find-set s b c rest)
