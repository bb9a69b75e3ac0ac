-- ===== src/MatchingEngine/Engine/Dispatch/Numbered.antt =====
-- Every request keeps the identities of the reports and of the trades consecutive.
use cpp_demo_build.Prelude.{ℕ, refl, List, [], ◌∷◌, All}
use cpp_demo_build.OrderEntry.Types.{Symbol}
use cpp_demo_build.OrderEntry.Messages.{
  Request, new_order_single, replace_order, cancel_order, flush,
}
use cpp_demo_build.MatchingEngine.Outcome.{IfDone, IfDone-bind, IfDone-bind_any, Ends, Ends-IfDone}
use cpp_demo_build.MatchingEngine.Engine.{Pool, make_engine, reserve_node_pool}
use cpp_demo_build.MatchingEngine.Engine.Numbered.{
  Numbered, emit_execution_report-Numbered, emit_cancel_reject-Numbered,
  emit_mbo_book_update-Numbered, on_release-Numbered, emit_summary-Numbered, on_trade-Numbered,
}
use cpp_demo_build.MatchingEngine.Engine.Dispatch.Sound.{IsWire}
use cpp_demo_build.MatchingEngine.Engine.Dispatch.Reachable.{run, run-Ends}
use cpp_demo_build.MatchingEngine.Engine.Invariant.{IsEngine}
use cpp_demo_build.MatchingEngine.Engine.Handlers.Kept.{IsKept}
use cpp_demo_build.MatchingEngine.Engine.Dispatch.Keeps.{Allows, send_all_keeps}

Numbered-IsKept : IsKept Numbered (λ k. Unit {0})
Numbered-IsKept = record {
  report = emit_execution_report-Numbered;
  reject = emit_cancel_reject-Numbered;
  update = emit_mbo_book_update-Numbered;
  summary = emit_summary-Numbered;
  trade = on_trade-Numbered;
  release = on_release-Numbered;
  book = λ e books h. record { reports = h.reports; trades = h.trades };
  erase = λ e key pool h. record { reports = h.reports; trades = h.trades };
  rest = λ e key a books pool q h. record { reports = h.reports; trades = h.trades };
}

any_Allowed : (requests : List Request) → All (Allows (λ k. Unit {0})) requests
any_Allowed [] = tt
any_Allowed (new_order_single request ∷ rest) = (tt, any_Allowed rest)
any_Allowed (replace_order incoming ∷ rest) = (tt, any_Allowed rest)
any_Allowed (cancel_order incoming ∷ rest) = (tt, any_Allowed rest)
any_Allowed (flush ∷ rest) = (tt, any_Allowed rest)

module _ (pool : Pool) where
  make_engine-Numbered :
      (symbols : List Symbol) (expected : ℕ) → IfDone Numbered (make_engine pool symbols expected)
  unfolding make_engine
  make_engine-Numbered symbols expected =
      IfDone-bind_any Numbered (reserve_node_pool pool expected []) _
        (λ live. record { reports = refl; trades = refl })

  -- After the construction of an engine and any requests with quantities of 64 bits, the execution
  -- reports that it emitted carry the identities 1, 2, 3 and so on, in their order and modulo 2 ^ 64,
  -- whoever they are for, the trades likewise, and the next identities go on from there; only the
  -- node pool can end the run.
  pub run-Numbered :
      (symbols : List Symbol) (expected : ℕ) (requests : List Request)
      → All IsWire requests
      → Ends Numbered (run pool symbols expected requests)
  run-Numbered symbols expected requests w =
      Ends-IfDone IsEngine Numbered (run pool symbols expected requests)
        (run-Ends pool symbols expected requests w)
        (IfDone-bind Numbered Numbered (make_engine pool symbols expected) _
          (make_engine-Numbered symbols expected)
          (λ e h. send_all_keeps Numbered-IsKept pool e requests (any_Allowed requests) h))
