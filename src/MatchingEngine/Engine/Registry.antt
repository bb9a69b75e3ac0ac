-- ===== src/MatchingEngine/Engine/Registry.antt =====
-- `books_`: a book for each symbol.
use cpp_demo_build.Prelude.{
  ◌+◌, ◌≡◌, refl, Bool, none, some, [], ◌∷◌, arith, eqb, eq_of_eqb, eqb_refl, if◌then◌else◌, All,
  All-append, All-imp, count, count-append, Bool-cases, inl, inr, sym, subst, ap, ◌∙◌,
}
use mathlib.Core.Option.{some-injective}
use cpp_demo_build.OrderEntry.Types.{Symbol, buy, sell}
use cpp_demo_build.MatchingEngine.Types.{OrderNode, Address}
use cpp_demo_build.MatchingEngine.Book.{OrderBook, empty_book}
use cpp_demo_build.MatchingEngine.Book.Invariant.{IsBook, makers, book_nodes}
use cpp_demo_build.MatchingEngine.Book.Linked.{node_at, node_at-All, node_at-append}
use cpp_demo_build.MatchingEngine.Book.Sound.{makers-on_side}
use cpp_demo_build.MatchingEngine.Engine.{Books, books_find, books_set, nodes}

-- Every book is sound, and no symbol has two.
abbrev pub IsBooks : Books → Type 0
IsBooks [] = Unit {0}
IsBooks ((s, b) ∷ rest) = IsBook s b × (books_find s rest ≡ none) × IsBooks rest

pub empty-IsBook : (s : Symbol) → IsBook s empty_book
empty-IsBook s = record {
  bid_side = record { levels = tt; sorted = tt };
  ask_side = record { levels = tt; sorted = tt };
  uncrossed = tt;
}

pub books_find-IsBook :
    (s : Symbol) (books : Books) (b : OrderBook)
    → IsBooks books
    → books_find s books ≡ some b
    → IsBook s b
unfolding books_find
books_find-IsBook s [] b h e = cc
books_find-IsBook s ((t, c) ∷ rest) b h e = elim (Bool-cases (eqb t s)) [
  | inl same ↦
      subst (λ u. IsBook u b) (eq_of_eqb t s same)
        (subst (IsBook t)
          (some-injective c b (sym (ap (λ x. if x then some c else books_find s rest) same) ∙ e))
          h.0)
  | inr other ↦
      books_find-IsBook s rest b h.2
        (sym (ap (λ x. if x then some c else books_find s rest) other) ∙ e)
]

books_find-set_none :
    (t s : Symbol) (b : OrderBook) (books : Books)
    → books_find t books ≡ none
    → books_find t (books_set s b books) ≡ none
unfolding books_find books_set
books_find-set_none t s b [] h = refl
books_find-set_none t s b ((u, c) ∷ rest) h = ground (arith, books_find-set_none t s b rest)

pub books_set-IsBooks :
    (s : Symbol) (b : OrderBook) (books : Books)
    → IsBooks books
    → IsBook s b
    → IsBooks (books_set s b books)
unfolding books_set
books_set-IsBooks s b [] h k = tt
books_set-IsBooks s b ((t, c) ∷ rest) h k = elim (Bool-cases (eqb t s)) [
  | inl same ↦ rw same (subst (λ u. IsBook u b) (sym (eq_of_eqb t s same)) k, h.1, h.2)
  | inr other ↦ rw other (h.0, books_find-set_none t s b rest h.1, books_set-IsBooks s b rest h.2 k)
]

-- Writing a book exchanges its nodes.
pub books_set-count :
    (p : OrderNode → Bool) (s : Symbol) (b c : OrderBook) (books : Books)
    → books_find s books ≡ some b
    → count p (nodes (books_set s c books)) + count p (book_nodes b)
      ≡ count p (nodes books) + count p (book_nodes c)
unfolding books_find books_set
books_set-count p s b c [] e = cc
books_set-count p s b c ((t, d) ∷ rest) e = ground (
  arith,
  books_set-count p s b c rest,
  count-append p (book_nodes d) (nodes rest),
  count-append p (book_nodes c) (nodes rest),
  count-append p (book_nodes d) (nodes (books_set s c rest)),
)

pub book_nodes-symbol :
    (s : Symbol) (b : OrderBook) → IsBook s b → All (λ (n : OrderNode). n.symbol ≡ s) (book_nodes b)
book_nodes-symbol s b h =
    All-append (λ (n : OrderNode). n.symbol ≡ s) (makers b.bids) (makers b.asks)
      (All-imp (λ (n : OrderNode). (n.side ≡ buy) × (n.symbol ≡ s))
        (λ (n : OrderNode). n.symbol ≡ s) (λ n f. f.1) (makers b.bids)
        (makers-on_side buy s b.bids h.bid_side.levels))
      (All-imp (λ (n : OrderNode). (n.side ≡ sell) × (n.symbol ≡ s))
        (λ (n : OrderNode). n.symbol ≡ s) (λ n f. f.1) (makers b.asks)
        (makers-on_side sell s b.asks h.ask_side.levels))

books_find_skip :
    (t s : Symbol) (b c : OrderBook) (rest : Books)
    → books_find s rest ≡ none
    → books_find t rest ≡ some c
    → books_find t ((s, b) ∷ rest) ≡ some c
unfolding books_find
books_find_skip t s b c rest e f = elim (Bool-cases (eqb s t)) [
  | inl same ↦ let g = subst (λ u. books_find u rest ≡ none) (eq_of_eqb s t same) e in cc
  | inr other ↦ rw other f
]

-- A linked node is in the book of its symbol.
pub books_find-node :
    (a : Address) (books : Books) (n : OrderNode)
    → IsBooks books
    → node_at a (nodes books) ≡ some n
    → (b : OrderBook) × (books_find n.symbol books ≡ some b) × (node_at a (book_nodes b) ≡ some n)
unfolding books_find node_at
books_find-node a [] n h e = cc
books_find-node a ((s, b) ∷ rest) n h e = elim (node_at-append a (book_nodes b) (nodes rest) n e) [
  | inl here ↦ (
    b,
    rw
        (
          node_at-All (λ (k : OrderNode). k.symbol ≡ s) a (book_nodes b) n here
              (book_nodes-symbol s b h.0),
          eqb_refl s,
        )
        refl,
    here,
  )
  | inr (_, there) ↦
      let (c, f, g) = books_find-node a rest n h.2 there in
      (c, books_find_skip n.symbol s b c rest h.1 f, g)
]
