-- ===== src/MatchingEngine/Engine/Tracks.antt =====
-- The index and the pool against the nodes that are linked: same entries, same slots.
use cpp_demo_build.Prelude.{
  ◌+◌, ◌<◌, ◌≤◌, ◌≡◌, refl, Bool, true, false, ◌==◌, ==_refl, ==_iff, ◌⊎◌, none, some, List, [],
  ◌∷◌, arith, count, bit, SameBag, Bool-cases, inl, inr, All, ◌≢◌, count_none, sym,
}
use cpp_demo_build.MatchingEngine.Types.{Address, OrderKey, OrderNode, key_of, key_eq}
use cpp_demo_build.MatchingEngine.Engine.{Index, index_find, index_erase, pool_free}
use cpp_demo_build.MatchingEngine.Book.Linked.{node_at}
use cpp_demo_build.MatchingEngine.Engine.Index.{
  has_key, is_entry, key_eq_refl, eq_of_key_eq, index_find-none, index_find-entry,
  index_erase-count,
}

-- What the index and the pool know of a node.
abbrev pub entry_of : OrderNode → OrderKey × Address
entry_of n = (key_of n.order, n.address)

abbrev pub entries : List OrderNode → Index
entries [] = []
entries (n ∷ ns) = entry_of n ∷ entries ns

abbrev pub slots : Index → List Address
slots [] = []
slots ((k, a) ∷ rest) = a ∷ slots rest

abbrev pub in_slot : Address → Address → Bool
in_slot a b = b == a

-- The index holds the entries, the pool the slots, and neither a key nor a slot is used twice.
pub record Tracks (index : Index) (pool : List Address) (es : Index) : Type 0 where
  pub indexed : SameBag index es
  pub pooled : SameBag pool (slots es)
  pub one_key : (k : OrderKey) → count (has_key k) es ≤ 1
  pub one_slot : (a : Address) → count (in_slot a) (slots es) ≤ 1

slots-count :
    (p : Address → Bool) (es : Index)
    → count p (slots es) ≡ count (λ (e : OrderKey × Address). p e.1) es
slots-count p [] = refl
slots-count p ((k, a) ∷ es) = omega (arith, slots-count p es)

-- The order of the nodes does not matter.
pub Tracks-bag :
    (index : Index) (pool : List Address) (es fs : Index)
    → SameBag es fs
    → Tracks index pool es
    → Tracks index pool fs
Tracks-bag index pool es fs same t = record {
  indexed = λ p. omega (arith, t.indexed p, same p);
  pooled = λ p. omega (arith, t.pooled p, slots-count p es, slots-count p fs, same (λ e. p e.1));
  one_key = λ k. omega (arith, t.one_key k, same (has_key k));
  one_slot = λ a. omega (
    arith,
    t.one_slot a,
    slots-count (in_slot a) es,
    slots-count (in_slot a) fs,
    same (λ e. in_slot a e.1),
  );
}

pub pool_free-count :
    (a : Address) (pool : List Address) (p : Address → Bool)
    → 0 < count (in_slot a) pool
    → bit (p a) + count p (pool_free a pool) ≡ count p pool
unfolding pool_free
pool_free-count a [] p h = absurd (omega arith)
pool_free-count a (b ∷ bs) p h = ground (arith, pool_free-count a bs p)

entry_self : (k : OrderKey) (a : Address) → bit (is_entry k a (k, a)) ≡ 1
entry_self k a = rw (key_eq_refl k, ==_refl a) refl

slot_self : (a : Address) → bit (in_slot a a) ≡ 1
slot_self a = rw (==_refl a) refl

-- Erasing the key of an entry and freeing its slot leaves the others.
pub Tracks-release :
    (index : Index) (pool : List Address) (k : OrderKey) (a : Address) (es : Index)
    → Tracks index pool ((k, a) ∷ es)
    → Tracks (index_erase k index) (pool_free a pool) es
Tracks-release index pool k a es t = record {
  indexed = λ p. omega (arith, index_erase-count k a index p found, t.indexed p);
  pooled = λ p. omega (arith, pool_free-count a pool p held, t.pooled p);
  one_key = λ h. omega (arith, t.one_key h);
  one_slot = λ b. omega (arith, t.one_slot b);
}
  where
    found : index_find k index ≡ some a
    found =
        index_find-entry k a index (omega (arith, t.indexed (is_entry k a), entry_self k a))
          (omega (arith, t.one_key k, t.indexed (has_key k)))

    held : 0 < count (in_slot a) pool
    held = omega (arith, t.pooled (in_slot a), slot_self a)

-- A new entry with a key that is not indexed and a slot that is not handed out.
pub Tracks-allocate :
    (index : Index) (pool : List Address) (k : OrderKey) (a : Address) (es : Index)
    → Tracks index pool es
    → index_find k index ≡ none
    → All (λ b. b ≢ a) pool
    → Tracks ((k, a) ∷ index) (a ∷ pool) ((k, a) ∷ es)
Tracks-allocate index pool k a es t fresh_key fresh_slot = record {
  indexed = λ p. omega (arith, t.indexed p);
  pooled = λ p. omega (arith, t.pooled p);
  one_key = λ h. one_of h (Bool-cases (key_eq k h));
  one_slot = λ b. slot_of b (Bool-cases (a == b));
}
  where
    one_of :
        (h : OrderKey)
        → ((key_eq k h ≡ true) ⊎ (key_eq k h ≡ false))
        → bit (key_eq k h) + count (has_key h) es ≤ 1
    one_of h (inr other) = rw other (omega (arith, t.one_key h))
    one_of h (inl same) =
        rw (same, sym (eq_of_key_eq k h same))
          (omega (arith, t.indexed (has_key k), index_find-none k index fresh_key))

    slots_other : (bs : List Address) → All (λ b. b ≢ a) bs → All (λ b. in_slot a b ≡ false) bs
    slots_other [] h = tt
    slots_other (b ∷ bs) h = (ground (arith, h.0), slots_other bs h.1)

    unused : count (in_slot a) pool ≡ 0
    unused = count_none (in_slot a) pool (slots_other pool fresh_slot)

    slot_of :
        (b : Address)
        → (((a == b) ≡ true) ⊎ ((a == b) ≡ false))
        → bit (a == b) + count (in_slot b) (slots es) ≤ 1
    slot_of b (inr other) = rw other (omega (arith, t.one_slot b))
    slot_of b (inl same) =
        rw (same, sym ((==_iff a b).0 same)) (omega (arith, t.pooled (in_slot a), unused))

-- An entry of the nodes leads to its node.
pub node_at-entry :
    (k : OrderKey) (a : Address) (ns : List OrderNode)
    → 0 < count (is_entry k a) (entries ns)
    → count (in_slot a) (slots (entries ns)) ≤ 1
    → (n : OrderNode) × (node_at a ns ≡ some n) × (key_of n.order ≡ k) × (n.address ≡ a)
unfolding node_at
node_at-entry k a [] h u = absurd (omega arith)
node_at-entry k a (m ∷ ms) h u = elim (Bool-cases (m.address == a)) [
  | inl same ↦
      (m, rw same refl, eq_of_key_eq (key_of m.order) k (here same), (==_iff m.address a).0 same)
  | inr other ↦
      let (n, e, f, g) = node_at-entry k a ms (there other) (omega arith) in (n, rw other e, f, g)
]
  where
    entry_le :
        (ns : List OrderNode)
        → count (is_entry k a) (entries ns) ≤ count (in_slot a) (slots (entries ns))
    entry_le [] = omega arith
    entry_le (n ∷ ns) = ground (arith, entry_le ns)

    here : (m.address == a) ≡ true → key_eq (key_of m.order) k ≡ true
    here same = ground (arith, entry_le ms)

    there : (m.address == a) ≡ false → 0 < count (is_entry k a) (entries ms)
    there other = ground arith
