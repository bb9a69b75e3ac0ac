-- ===== src/MatchingEngine/Book/Cancel.antt =====
-- `cancel_from`: a linked order leaves its level, and the side stays sound.
use cpp_demo_build.Prelude.{
  ℕ, ◌+◌, ◌%◌, ◌<◌, ◌≡◌, refl, Bool, true, false, ◌==◌, ==_iff, ==_refl, some, List, [], ◌∷◌, arith,
  All, All-append, All-imp, count, count-append, bit, Bool-cases, inl, inr, u64_mod, sub64,
  sub64-mod, sym, subst, ap, ◌∙◌,
}
use mathlib.Core.List.{cons-ne-nil}
use cpp_demo_build.OrderEntry.Types.{Price, Symbol, Side, Quantity}
use cpp_demo_build.MatchingEngine.Types.{OrderNode}
use cpp_demo_build.MatchingEngine.Outcome.{done}
use cpp_demo_build.MatchingEngine.Book.{Entry, SideMap, unlink, drop_if_empty, cancel_from}
use cpp_demo_build.MatchingEngine.Book.Invariant.{
  IsResting, IsLevel, IsSorted, Behind, IsSide, leaves_sum, makers,
}
use cpp_demo_build.MatchingEngine.Book.Linked.{
  node_at, node_at-All, node_at-append, unlink-count, leaves_sum-unlink, unlink-All,
}
use cpp_demo_build.MatchingEngine.Book.Place.{IsOrder}

-- What is left of a level, in front of the others.
drop_if_empty-count :
    (p : OrderNode → Bool) (price : Price) (total : Quantity) (ns : List OrderNode) (ls : SideMap)
    → count p (makers (drop_if_empty price total ns ls)) ≡ count p ns + count p (makers ls)
unfolding drop_if_empty
drop_if_empty-count p price total [] ls = omega arith
drop_if_empty-count p price total (n ∷ ns) ls = omega (arith, count-append p (n ∷ ns) (makers ls))

drop_if_empty-prices {κ} :
    (Q : Price → Type κ) (price : Price) (total : Quantity) (ns : List OrderNode) (ls : SideMap)
    → Q price
    → All (λ (l : Entry). Q l.price) ls
    → All (λ (l : Entry). Q l.price) (drop_if_empty price total ns ls)
unfolding drop_if_empty
drop_if_empty-prices Q price total [] ls q h = h
drop_if_empty-prices Q price total (n ∷ ns) ls q h = (q, h)

drop_if_empty-IsSorted :
    (before : Price → Price → Bool) (price : Price) (total : Quantity) (ns : List OrderNode)
    (ls : SideMap)
    → Behind before price ls
    → IsSorted before ls
    → IsSorted before (drop_if_empty price total ns ls)
unfolding drop_if_empty
drop_if_empty-IsSorted before price total [] ls b h = h
drop_if_empty-IsSorted before price total (n ∷ ns) ls b h = (b, h)

module _ (side : Side) (symbol : Symbol) where
  drop_if_empty-levels :
      (price : Price) (total : Quantity) (ns : List OrderNode) (ls : SideMap)
      → All (IsResting side symbol price) ns
      → total ≡ leaves_sum ns % u64_mod
      → 0 < price
      → All (IsLevel side symbol) ls
      → All (IsLevel side symbol) (drop_if_empty price total ns ls)
  unfolding drop_if_empty
  drop_if_empty-levels price total [] ls r t pos h = h
  drop_if_empty-levels price total (n ∷ ns) ls r t pos h =
      (record { occupied = cons-ne-nil n ns; resting = r; total = t; priced = pos }, h)

  total-unlink :
      (l : Entry) (n : OrderNode)
      → IsLevel side symbol l
      → node_at n.address l.orders ≡ some n
      → sub64 l.total_remaining n.leaves_qty ≡ leaves_sum (unlink n.address l.orders) % u64_mod
  total-unlink l n h e =
      let r = node_at-All (IsResting side symbol l.price) n.address l.orders n e h.resting in
      let s = leaves_sum-unlink n.address l.orders n e in
      rw h.total (
        sub64-mod (leaves_sum l.orders) n.leaves_qty (omega (arith, s))
          (omega (arith, r.within, r.bounded))
        ∙ ap (λ (t : ℕ). t % u64_mod) (omega (arith, s)))

  -- Every order of the levels behind a price has a price behind it.
  makers-Behind :
      (before : Price → Price → Bool) (p : Price) (ls : SideMap)
      → All (IsLevel side symbol) ls
      → Behind before p ls
      → All (λ (n : OrderNode). before p n.price ≡ true) (makers ls)
  makers-Behind before p [] h b = tt
  makers-Behind before p (l ∷ ls) h b =
      All-append (λ (n : OrderNode). before p n.price ≡ true) l.orders (makers ls)
        (All-imp (IsResting side symbol l.price) (λ (n : OrderNode). before p n.price ≡ true)
          (λ n r. subst (λ q. before p q ≡ true) (sym r.at_price) b.0) l.orders h.0.resting)
        (makers-Behind before p ls h.1 b.1)

  -- What `cancel_from` gives for a node that is linked on the side.
  pub record Cancelled (before : Price → Price → Bool) (m : SideMap) (n : OrderNode) : Type 1 where
    pub rest : SideMap
    pub returns : cancel_from m n ≡ done rest
    pub left : (p : OrderNode → Bool) → bit (p n) + count p (makers rest) ≡ count p (makers m)
    pub prices :
        (Q : Price → Type 0)
        → All (λ (l : Entry). Q l.price) m
        → All (λ (l : Entry). Q l.price) rest
    pub sound : IsSide before side symbol rest

  module _ (before : Price → Price → Bool) (o : IsOrder before) where
    cancel_here :
        (l : Entry) (ls : SideMap) (n : OrderNode)
        → IsSide before side symbol (l ∷ ls)
        → node_at n.address l.orders ≡ some n
        → Cancelled before (l ∷ ls) n
    unfolding cancel_from
    cancel_here l ls n h e = record {
      rest = rest;
      returns = rw (sym (r.at_price), ==_refl n.price) refl;
      left = λ p. omega (
        arith,
        unlink-count p n.address l.orders n e,
        count-append p l.orders (makers ls),
        drop_if_empty-count p l.price total (unlink n.address l.orders) ls,
      );
      prices = λ Q a. drop_if_empty-prices Q l.price total (unlink n.address l.orders) ls a.0 a.1;
      sound = record {
        levels =
            drop_if_empty-levels l.price total (unlink n.address l.orders) ls
              (unlink-All (IsResting side symbol l.price) n.address l.orders h.levels.0.resting)
              (total-unlink l n h.levels.0 e) h.levels.0.priced h.levels.1;
        sorted =
            drop_if_empty-IsSorted before l.price total (unlink n.address l.orders) ls h.sorted.0
              h.sorted.1;
      };
    }
      where
        r : IsResting side symbol l.price n
        r = node_at-All (IsResting side symbol l.price) n.address l.orders n e h.levels.0.resting

        total : Quantity
        total = sub64 l.total_remaining n.leaves_qty

        rest : SideMap
        rest = drop_if_empty l.price total (unlink n.address l.orders) ls

    cancel_there :
        (l : Entry) (ls : SideMap) (n : OrderNode)
        → IsSide before side symbol (l ∷ ls)
        → node_at n.address (makers ls) ≡ some n
        → Cancelled before ls n
        → Cancelled before (l ∷ ls) n
    unfolding cancel_from
    cancel_there l ls n h e c = record {
      rest = l ∷ c.rest;
      returns = rw (other, c.returns) refl;
      left = λ p. omega (
        arith,
        c.left p,
        count-append p l.orders (makers ls),
        count-append p l.orders (makers c.rest),
      );
      prices = λ Q a. (a.0, c.prices Q a.1);
      sound = record {
        levels = (h.levels.0, c.sound.levels);
        sorted = (c.prices (λ q. before l.price q ≡ true) h.sorted.0, c.sound.sorted);
      };
    }
      where
        behind : before l.price n.price ≡ true
        behind =
            node_at-All (λ (k : OrderNode). before l.price k.price ≡ true) n.address (makers ls) n e
              (makers-Behind before l.price ls h.levels.1 h.sorted.0)

        other : (l.price == n.price) ≡ false
        other = elim (Bool-cases (l.price == n.price)) [
          | inr e ↦ e
          | inl e ↦
              let b : before l.price l.price ≡ true =
                subst (λ q. before l.price q ≡ true) (sym ((==_iff l.price n.price).0 e)) behind in
              let c = o.irrefl l.price in cc
        ]

    pub cancel_from-Cancelled :
        (m : SideMap) (n : OrderNode)
        → IsSide before side symbol m
        → node_at n.address (makers m) ≡ some n
        → Cancelled before m n
    unfolding node_at
    cancel_from-Cancelled [] n h e = cc
    cancel_from-Cancelled (l ∷ ls) n h e =
        elim (node_at-append n.address l.orders (makers ls) n e) [
          | inl here ↦ cancel_here l ls n h here
          | inr (_, there) ↦ cancel_there l ls n h there (
              cancel_from-Cancelled ls n (record { levels = h.levels.1; sorted = h.sorted.1 })
                there)
        ]
