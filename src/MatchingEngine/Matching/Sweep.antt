-- ===== src/MatchingEngine/Matching/Sweep.antt =====
-- The specification of `match`: price-time priority over the flat list of makers, with plain
-- arithmetic and no levels, running totals, iterators or bulk erase.
use cpp_demo_build.Prelude.{suc, ◌-◌, ◌&&◌, some, List, [], ◌∷◌, ltb, ◌==◌, if◌then◌else◌, min}
use cpp_demo_build.MarketData.Messages.{Trade}
use cpp_demo_build.MatchingEngine.Types.{OrderState, OrderNode}
use cpp_demo_build.MatchingEngine.Matching.{ExecutionSummary, crosses, make_trade, with_leaves}

pub record Swept {ℓ} (S : Type ℓ) : Type ℓ where
  pub rest : List OrderNode
  pub taker : OrderState
  pub result : ExecutionSummary
  pub world : S

module _ {ℓ} {S : Type ℓ} (on_trade : Trade → S → S) (on_release : OrderNode → S → S) where
  unfoldable pub sweep : OrderState → ExecutionSummary → S → List OrderNode → Swept S
  sweep taker result s [] = record { rest = []; taker = taker; result = result; world = s }
  sweep taker result s (m ∷ ms) =
      let q = min taker.leaves_qty m.leaves_qty in
      let taker' = with_leaves taker (taker.leaves_qty - q) in
      let m' : OrderNode = record m { order = with_leaves m.order (m.leaves_qty - q) } in
      let result' : ExecutionSummary = record {
        trades = suc result.trades;
        last_traded = some m.price;
      } in
      let traded = on_trade (make_trade taker m.order m.price q) s in
      let next = sweep taker' result' (on_release m' traded) ms in
      if ltb 0 taker.leaves_qty && crosses taker m.price
      then (if q == m.leaves_qty
          then next
          else record { rest = m' ∷ ms; taker = taker'; result = result'; world = traded })
      else record { rest = m ∷ ms; taker = taker; result = result; world = s }
