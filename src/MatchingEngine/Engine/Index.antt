-- ===== src/MatchingEngine/Engine/Index.antt =====
-- The identity index as a bag of entries.
use cpp_demo_build.Prelude.{
  ◌+◌, ◌<◌, ◌≤◌, ◌≡◌, refl, Bool, true, false, ◌&&◌, ◌==◌, ==_refl, none, some, [], ◌∷◌, arith,
  count, bit, Bool-cases, inl, inr,
}
use cpp_demo_build.MatchingEngine.Types.{Address, OrderKey, key_eq}
use cpp_demo_build.MatchingEngine.Engine.{Index, index_find, index_erase, index_emplace}

abbrev pub has_key : OrderKey → OrderKey × Address → Bool
has_key k (j, a) = key_eq j k

abbrev pub is_entry : OrderKey → Address → OrderKey × Address → Bool
is_entry k a (j, b) = key_eq j k && b == a

pub key_eq_refl : (k : OrderKey) → key_eq k k ≡ true
key_eq_refl k = ground (arith, ==_refl k.client_id, ==_refl k.cl_ord_id)

pub eq_of_key_eq : (j k : OrderKey) → key_eq j k ≡ true → j ≡ k
eq_of_key_eq j k h =
    let e : j.client_id ≡ k.client_id = ground arith in
    let f : j.cl_ord_id ≡ k.cl_ord_id = ground arith in
    λ i. record { client_id = e i; cl_ord_id = f i }

pub index_find-none :
    (k : OrderKey) (index : Index) → index_find k index ≡ none → count (has_key k) index ≡ 0
unfolding index_find
index_find-none k [] h = refl
index_find-none k ((j, a) ∷ rest) h = ground (arith, index_find-none k rest)

pub index_find-unseen :
    (k : OrderKey) (index : Index) → count (has_key k) index ≡ 0 → index_find k index ≡ none
unfolding index_find
index_find-unseen k [] h = refl
index_find-unseen k ((j, a) ∷ rest) h = ground (arith, index_find-unseen k rest)

pub index_find-some :
    (k : OrderKey) (a : Address) (index : Index)
    → index_find k index ≡ some a
    → 0 < count (is_entry k a) index
unfolding index_find
index_find-some k a [] h = cc
index_find-some k a ((j, b) ∷ rest) h = ground (arith, index_find-some k a rest)

-- An entry whose key no other entry has is the one that is found.
pub index_find-entry :
    (k : OrderKey) (a : Address) (index : Index)
    → 0 < count (is_entry k a) index
    → count (has_key k) index ≤ 1
    → index_find k index ≡ some a
unfolding index_find
index_find-entry k a [] h u = absurd (omega arith)
index_find-entry k a ((j, b) ∷ rest) h u = ground (arith, index_find-entry k a rest, entry_le rest)
  where
    entry_le : (index : Index) → count (is_entry k a) index ≤ count (has_key k) index
    entry_le [] = omega arith
    entry_le ((j, b) ∷ rest) = ground (arith, entry_le rest)

pub index_erase-count :
    (k : OrderKey) (a : Address) (index : Index) (p : OrderKey × Address → Bool)
    → index_find k index ≡ some a
    → bit (p (k, a)) + count p (index_erase k index) ≡ count p index
unfolding index_find index_erase
index_erase-count k a [] p h = cc
index_erase-count k a ((j, b) ∷ rest) p h = elim (Bool-cases (key_eq j k)) [
  | inl e ↦ rw (e, eq_of_key_eq j k e, found e) refl
  | inr e ↦ rw e (omega (arith, index_erase-count k a rest p (missed e)))
]
  where
    found : key_eq j k ≡ true → b ≡ a
    found e = ground arith

    missed : key_eq j k ≡ false → index_find k rest ≡ some a
    missed e = ground arith

-- An entry of a key that is not there.
pub index_emplace-fresh :
    (k : OrderKey) (a : Address) (index : Index)
    → index_find k index ≡ none
    → index_emplace k a index ≡ (k, a) ∷ index
unfolding index_emplace
index_emplace-fresh k a index h = rw h refl

-- Erasing never brings a key back.
pub index_erase-none :
    (j k : OrderKey) (index : Index)
    → index_find k index ≡ none
    → index_find k (index_erase j index) ≡ none
unfolding index_find index_erase
index_erase-none j k [] h = refl
index_erase-none j k ((i, a) ∷ rest) h = ground (arith, index_erase-none j k rest)
