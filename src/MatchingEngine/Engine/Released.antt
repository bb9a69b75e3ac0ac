-- ===== src/MatchingEngine/Engine/Released.antt =====
-- The callbacks of `match` keep the index and the pool in step with the makers.
use cpp_demo_build.Prelude.{
  none, ℕ, ◌-◌, ◌<◌, ◌≡◌, refl, Bool, ◌&&◌, ◌==◌, List, [], ◌∷◌, ◌++◌, arith, min, suc, some, ltb,
  All, count, Bool-cases, inl, inr, u64_mod, sym, subst,
}
use cpp_demo_build.OrderEntry.Types.{Symbol, Side}
use cpp_demo_build.MatchingEngine.Types.{Address, OrderKey, OrderState, OrderNode}
use cpp_demo_build.MatchingEngine.Book.{SideMap}
use cpp_demo_build.MatchingEngine.Book.Invariant.{IsLevel, makers}
use cpp_demo_build.MatchingEngine.Matching.{
  ExecutionSummary, match, no_execution, make_trade, with_leaves, crosses,
}
use cpp_demo_build.MatchingEngine.Matching.Sweep.{Swept, sweep}
use cpp_demo_build.MatchingEngine.Matching.Refine.{match-sweep}
use cpp_demo_build.MatchingEngine.Engine.{
  index_find, Engine, Books, on_trade, on_release, release_node,
}
use cpp_demo_build.MatchingEngine.Engine.Index.{index_erase-none}
use cpp_demo_build.MatchingEngine.Engine.Tracks.{
  Tracks, Tracks-bag, Tracks-release, entries, entry_of,
}

entries-count :
    (p : OrderKey × Address → Bool) (ns : List OrderNode)
    → count p (entries ns) ≡ count (λ n. p (entry_of n)) ns
entries-count p [] = refl
entries-count p (n ∷ ns) = omega (arith, entries-count p ns)

-- The engine tracks the nodes of a list.
abbrev pub Follows : Engine → List OrderNode → Type 0
Follows e ns = Tracks e.resting_index e.node_pool (entries ns)

pub Follows-bag :
    (e : Engine) (ns ms : List OrderNode)
    → ((p : OrderNode → Bool) → count p ns ≡ count p ms)
    → Follows e ns
    → Follows e ms
Follows-bag e ns ms same =
    Tracks-bag e.resting_index e.node_pool (entries ns) (entries ms)
      (λ p. omega (arith, entries-count p ns, entries-count p ms, same (λ n. p (entry_of n))))

-- How the sweep goes on at a maker.
sweep_cases {κ} :
    (P : Swept Engine → Type κ) (taker : OrderState) (r : ExecutionSummary) (e : Engine)
    (m : OrderNode) (ms : List OrderNode)
    → P (record { rest = m ∷ ms; taker = taker; result = r; world = e })
    → ((taker' : OrderState) (r' : ExecutionSummary) (m' : OrderNode) (q : ℕ)
        → entry_of m' ≡ entry_of m
        → (let traded = on_trade (make_trade taker m.order m.price q) e in
            P (sweep on_trade on_release taker' r' (on_release m' traded) ms)
            × P (record { rest = m' ∷ ms; taker = taker'; result = r'; world = traded })))
    → P (sweep on_trade on_release taker r e (m ∷ ms))
unfolding sweep
sweep_cases P taker r e m ms stop go =
    elim (Bool-cases (ltb 0 taker.leaves_qty && crosses taker m.price)) [
      | inr f ↦ rw (f, sweep) stop
      | inl f ↦ elim (Bool-cases (q == m.leaves_qty)) [
        | inl g ↦ rw (f, g, sweep) (go taker' r' m' q refl).0
        | inr g ↦ rw (f, g, sweep) (go taker' r' m' q refl).1
      ]
    ]
  where
    q : ℕ
    q = min taker.leaves_qty m.leaves_qty

    taker' : OrderState
    taker' = with_leaves taker (taker.leaves_qty - q)

    m' : OrderNode
    m' = record m { order = with_leaves m.order (m.leaves_qty - q) }

    r' : ExecutionSummary
    r' = record { trades = suc r.trades; last_traded = some m.price }

module _ (books : Books) (others : List OrderNode) (key : OrderKey) where
  -- The callbacks leave the books alone, and bring no key into the index.
  abbrev pub Kept : Engine → List OrderNode → Type 0
  Kept e ns = Follows e (ns ++ others) × (e.books ≡ books) × (index_find key e.resting_index ≡ none)

  sweep-Kept :
      (taker : OrderState) (r : ExecutionSummary) (e : Engine) (ms : List OrderNode)
      → Kept e ms
      → (let w = sweep on_trade on_release taker r e ms in Kept w.world w.rest)
  unfolding sweep on_trade on_release release_node
  sweep-Kept taker r e [] h = h
  sweep-Kept taker r e (m ∷ ms) h =
      sweep_cases (λ w. Kept w.world w.rest) taker r e m ms h
        (λ taker' r' m' q same.
          let traded = on_trade (make_trade taker m.order m.price q) e in
          let held : Tracks e.resting_index e.node_pool (entry_of m' ∷ entries (ms ++ others)) =
            subst (λ x. Tracks e.resting_index e.node_pool (x ∷ entries (ms ++ others))) (sym same)
              h.0 in
          (
            sweep-Kept taker' r' (on_release m' traded) ms (
              Tracks-release e.resting_index e.node_pool (entry_of m').0 m'.address
                  (entries (ms ++ others)) held,
              h.1,
              index_erase-none (entry_of m').0 key e.resting_index h.2,
            ),
            (held, h.1, h.2),
          ))

  -- `match` with the callbacks of the engine.
  pub match-Kept :
      (side : Side) (symbol : Symbol) (side_map : SideMap) (taker : OrderState) (e : Engine)
      → All (IsLevel side symbol) side_map
      → taker.leaves_qty < u64_mod
      → Kept e (makers side_map)
      → (let m = match on_trade on_release side_map taker e in Kept m.world (makers m.side_map))
  match-Kept side symbol side_map taker e a tb h =
      let w = sweep on_trade on_release taker no_execution e (makers side_map) in
      let s = match-sweep on_trade on_release side symbol side_map taker e a tb in
      subst (λ x. Kept x (makers (match on_trade on_release side_map taker e).side_map)) (sym s.3)
        (subst (Kept w.world) (sym s.0) (sweep-Kept taker no_execution e (makers side_map) h))
