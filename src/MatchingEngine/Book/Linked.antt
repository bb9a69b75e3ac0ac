-- ===== src/MatchingEngine/Book/Linked.antt =====
-- The nodes that are linked: an intrusive pointer is the first node with its address.
use cpp_demo_build.Prelude.{
  ◌+◌, ◌≡◌, refl, Bool, ◌==◌, ==_iff, Option, none, some, List, [], ◌∷◌, ◌++◌, arith, if◌then◌else◌,
  All, count, bit, Bool-cases, inl, inr, sym, subst, ap, ◌∙◌, ◌⊎◌,
}
use mathlib.Core.Option.{some-injective}
use cpp_demo_build.MatchingEngine.Types.{Address, OrderNode}
use cpp_demo_build.MatchingEngine.Book.{unlink}
use cpp_demo_build.MatchingEngine.Book.Invariant.{leaves_sum}

-- `*node` of an `order_node*` to a linked node.
unfoldable pub node_at : Address → List OrderNode → Option OrderNode
node_at a [] = none
node_at a (n ∷ ns) = if n.address == a then some n else node_at a ns

-- The node at an address is one of the nodes.
pub node_at-All {κ} :
    (P : OrderNode → Type κ) (a : Address) (ns : List OrderNode) (n : OrderNode)
    → node_at a ns ≡ some n
    → All P ns
    → P n
unfolding node_at
node_at-All P a [] n e h = cc
node_at-All P a (m ∷ ms) n e (p, h) = elim (Bool-cases (m.address == a)) [
  | inl same ↦
      subst P (some-injective m n ((sym (ap (λ b. if b then some m else node_at a ms) same)) ∙ e)) p
  | inr other ↦
      node_at-All P a ms n (sym (ap (λ b. if b then some m else node_at a ms) other) ∙ e) h
]

pub node_at-address :
    (a : Address) (ns : List OrderNode) (n : OrderNode) → node_at a ns ≡ some n → n.address ≡ a
unfolding node_at
node_at-address a [] n e = cc
node_at-address a (m ∷ ms) n e = elim (Bool-cases (m.address == a)) [
  | inl same ↦
      ap OrderNode.address
        (sym (some-injective m n (sym (ap (λ b. if b then some m else node_at a ms) same) ∙ e)))
      ∙ (==_iff m.address a).0 same
  | inr other ↦
      node_at-address a ms n (sym (ap (λ b. if b then some m else node_at a ms) other) ∙ e)
]

-- A node of two lists is in the one or, found there, in the other.
pub node_at-append :
    (a : Address) (xs ys : List OrderNode) (n : OrderNode)
    → node_at a (xs ++ ys) ≡ some n
    → (node_at a xs ≡ some n) ⊎ ((node_at a xs ≡ none) × (node_at a ys ≡ some n))
unfolding node_at
node_at-append a [] ys n e = inr (refl, e)
node_at-append a (x ∷ xs) ys n e = ground (arith, node_at-append a xs ys n)

pub unlink-count :
    (p : OrderNode → Bool) (a : Address) (ns : List OrderNode) (n : OrderNode)
    → node_at a ns ≡ some n
    → bit (p n) + count p (unlink a ns) ≡ count p ns
unfolding node_at unlink
unlink-count p a [] n e = cc
unlink-count p a (m ∷ ms) n e = ground (arith, unlink-count p a ms n)

pub leaves_sum-unlink :
    (a : Address) (ns : List OrderNode) (n : OrderNode)
    → node_at a ns ≡ some n
    → n.leaves_qty + leaves_sum (unlink a ns) ≡ leaves_sum ns
unfolding node_at unlink
leaves_sum-unlink a [] n e = cc
leaves_sum-unlink a (m ∷ ms) n e = ground (arith, leaves_sum-unlink a ms n)

pub unlink-All {κ} :
    (P : OrderNode → Type κ) (a : Address) (ns : List OrderNode) → All P ns → All P (unlink a ns)
unfolding unlink
unlink-All P a [] h = h
unlink-All P a (m ∷ ms) h = elim (Bool-cases (m.address == a)) [
  | inl same ↦ rw same h.1
  | inr other ↦ rw other (h.0, unlink-All P a ms h.1)
]
