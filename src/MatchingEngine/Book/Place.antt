-- ===== src/MatchingEngine/Book/Place.antt =====
-- `place_into`: the order joins the back of its level, and the side stays sound.
use cpp_demo_build.Prelude.{
  ℕ, ◌+◌, ◌%◌, ◌<◌, ◌≡◌, ◌≢◌, Bool, true, false, ◌==◌, ==_iff, List, [], ◌∷◌, ◌++◌, arith, All,
  All-append, All-imp, count, count-append, bit, Bool-cases, inl, inr, u64_mod, add64, add64-mod,
  sym, subst, ap, ◌∙◌,
}
use mathlib.Core.List.{cons-ne-nil}
use cpp_demo_build.OrderEntry.Types.{Price, Symbol, Side}
use cpp_demo_build.MatchingEngine.Types.{OrderNode}
use cpp_demo_build.MatchingEngine.Book.{Entry, SideMap, push_back, place_into, greater, less}
use cpp_demo_build.MatchingEngine.Book.Invariant.{
  IsResting, IsLevel, IsSorted, IsSide, leaves_sum, makers,
}

-- What the comparator of a side map is: a strict total order.
pub record IsOrder (before : Price → Price → Bool) : Type 0 where
  pub irrefl : (a : Price) → before a a ≡ false
  pub trans : (a b c : Price) → before a b ≡ true → before b c ≡ true → before a c ≡ true
  pub total : (a b : Price) → (b == a) ≡ false → before a b ≡ false → before b a ≡ true

pub greater-IsOrder : IsOrder greater
greater-IsOrder = record {
  irrefl = λ a. ground arith;
  trans = λ a b c h k. ground arith;
  total = λ a b h k. ground arith;
}

pub less-IsOrder : IsOrder less
less-IsOrder = record {
  irrefl = λ a. ground arith;
  trans = λ a b c h k. ground arith;
  total = λ a b h k. ground arith;
}

leaves_sum-append : (xs ys : List OrderNode) → leaves_sum (xs ++ ys) ≡ leaves_sum xs + leaves_sum ys
leaves_sum-append [] ys = omega arith
leaves_sum-append (x ∷ xs) ys = omega (arith, leaves_sum-append xs ys)

append-ne_nil : (xs : List OrderNode) (n : OrderNode) → xs ++ n ∷ [] ≢ []
append-ne_nil [] n = cons-ne-nil n []
append-ne_nil (x ∷ xs) n = cons-ne-nil x (xs ++ n ∷ [])

module _ (before : Price → Price → Bool) where
  -- The makers and the new order, in some order.
  pub place_into-count :
      (p : OrderNode → Bool) (m : SideMap) (n : OrderNode)
      → count p (makers (place_into before m n)) ≡ bit (p n) + count p (makers m)
  unfolding place_into
  place_into-count p [] n = omega arith
  place_into-count p (l ∷ ls) n = ground (
    arith,
    place_into-count p ls n,
    count-append p l.orders (makers ls),
    count-append p (l.orders ++ n ∷ []) (makers ls),
    count-append p l.orders (n ∷ []),
    count-append p l.orders (makers (place_into before ls n)),
  )

  -- The prices of the side and of the new order.
  pub place_into-prices {κ} :
      (Q : Price → Type κ) (m : SideMap) (n : OrderNode)
      → All (λ (l : Entry). Q l.price) m
      → Q n.price
      → All (λ (l : Entry). Q l.price) (place_into before m n)
  unfolding place_into
  place_into-prices Q [] n h q = (q, tt)
  place_into-prices Q (l ∷ ls) n h q = elim (Bool-cases (l.price == n.price)) [
    | inl e ↦ rw e (h.0, h.1)
    | inr e ↦ elim (Bool-cases (before n.price l.price)) [
      | inl f ↦ rw (e, f) (q, h)
      | inr f ↦ rw (e, f) (h.0, place_into-prices Q ls n h.1 q)
    ]
  ]

  place_into-IsSorted :
      (m : SideMap) (n : OrderNode)
      → IsOrder before
      → IsSorted before m
      → IsSorted before (place_into before m n)
  unfolding place_into
  place_into-IsSorted [] n o h = (tt, tt)
  place_into-IsSorted (l ∷ ls) n o h = elim (Bool-cases (l.price == n.price)) [
    | inl e ↦ rw e (h.0, h.1)
    | inr e ↦ elim (Bool-cases (before n.price l.price)) [
      | inl f ↦
          rw (e, f)
            (
              (
                f,
                All-imp (λ (k : Entry). before l.price k.price ≡ true)
                    (λ (k : Entry). before n.price k.price ≡ true)
                    (λ k g. o.trans n.price l.price k.price f g) ls h.0,
              ),
              h,
            )
      | inr f ↦
          rw (e, f)
            (
              place_into-prices (λ q. before l.price q ≡ true) ls n h.0
                  (o.total n.price l.price e f),
              place_into-IsSorted ls n o h.1,
            )
    ]
  ]

  module _ (side : Side) (symbol : Symbol) where
    push_back-IsLevel :
        (l : Entry) (n : OrderNode)
        → IsLevel side symbol l
        → IsResting side symbol l.price n
        → IsLevel side symbol (record l { level = push_back l.level n })
    push_back-IsLevel l n h r = record {
      occupied = append-ne_nil l.orders n;
      resting = All-append (IsResting side symbol l.price) l.orders (n ∷ []) h.resting (r, tt);
      total = rw h.total (
          add64-mod (leaves_sum l.orders) n.leaves_qty
          ∙ ap (λ (t : ℕ). t % u64_mod) (omega (arith, leaves_sum-append l.orders (n ∷ []))));
      priced = h.priced;
    }

    fresh-IsLevel :
        (n : OrderNode)
        → IsResting side symbol n.price n
        → 0 < n.price
        → IsLevel side symbol (record {
          price = n.price;
          level = push_back (record { orders = []; total_remaining = 0 }) n;
        })
    unfolding add64
    fresh-IsLevel n r pos = record {
      occupied = cons-ne-nil n [];
      resting = (r, tt);
      total = omega arith;
      priced = pos;
    }

    place_into-levels :
        (m : SideMap) (n : OrderNode)
        → All (IsLevel side symbol) m
        → IsResting side symbol n.price n
        → 0 < n.price
        → All (IsLevel side symbol) (place_into before m n)
    unfolding place_into
    place_into-levels [] n h r pos = (fresh-IsLevel n r pos, tt)
    place_into-levels (l ∷ ls) n h r pos = elim (Bool-cases (l.price == n.price)) [
      | inl e ↦ rw e (
        push_back-IsLevel l n h.0
            (subst (λ q. IsResting side symbol q n) (sym ((==_iff l.price n.price).0 e)) r),
        h.1,
      )
      | inr e ↦ elim (Bool-cases (before n.price l.price)) [
        | inl f ↦ rw (e, f) (fresh-IsLevel n r pos, h)
        | inr f ↦ rw (e, f) (h.0, place_into-levels ls n h.1 r pos)
      ]
    ]

    pub place_into-IsSide :
        (m : SideMap) (n : OrderNode)
        → IsOrder before
        → IsSide before side symbol m
        → IsResting side symbol n.price n
        → 0 < n.price
        → IsSide before side symbol (place_into before m n)
    place_into-IsSide m n o h r pos = record {
      levels = place_into-levels m n h.levels r pos;
      sorted = place_into-IsSorted m n o h.sorted;
    }
