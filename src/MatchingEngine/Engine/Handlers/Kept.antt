-- ===== src/MatchingEngine/Engine/Handlers/Kept.antt =====
-- The interface of what the engine keeps: a predicate on its state that every small step keeps.
use cpp_demo_build.Prelude.{List, Bytes, Option}
use cpp_demo_build.OrderEntry.Types.{
  RejectReason, ExecType, OrdStatus, OrigClOrdId, Price, Quantity, SecurityId, Side,
}
use cpp_demo_build.OrderEntry.Messages.{CancelOrder}
use cpp_demo_build.MatchingEngine.Types.{Address, OrderKey, OrderState, OrderNode}
use cpp_demo_build.MatchingEngine.Book.{OrderBook}
use cpp_demo_build.MarketData.Messages as mm
use cpp_demo_build.MatchingEngine.Engine.{
  Engine, Books, market_data, index_erase, index_emplace, emit, emit_execution_report,
  emit_cancel_reject, emit_mbo_book_update, on_trade, on_release,
}

-- The steps of the engine keep `P`; an order may rest under the keys of `Q`.
pub record IsKept (P : Engine → Type 0) (Q : OrderKey → Type 0) : Type 0 where
  pub report :
      (e : Engine) (order : OrderState) (x : ExecType) (s : OrdStatus) (o : Option OrigClOrdId)
      (q : Option Quantity) (p : Option Price)
      → P e
      → P (emit_execution_report e order x s o q p)
  pub reject :
      (e : Engine) (c : CancelOrder) (r : RejectReason) (t : Bytes)
      → P e
      → P (emit_cancel_reject e c r t)
  pub update :
      (e : Engine) (b : OrderBook) (s : Side) (i : SecurityId)
      → P e
      → P (emit_mbo_book_update e b s i)
  pub summary :
      (e : Engine) (m : mm.ExecutionSummary)
      → P e
      → P (emit e (market_data (mm.Message.execution_summary m)))
  pub trade : (t : mm.Trade) (e : Engine) → P e → P (on_trade t e)
  pub release : (n : OrderNode) (e : Engine) → P e → P (on_release n e)
  pub book : (e : Engine) (books : Books) → P e → P (record e { books = books })
  pub erase :
      (e : Engine) (key : OrderKey) (pool : List Address)
      → P e
      → P (record e { resting_index = index_erase key e.resting_index; node_pool = pool })
  pub rest :
      (e : Engine) (key : OrderKey) (a : Address) (books : Books) (pool : List Address)
      → Q key
      → P e
      → P (record e {
        books = books;
        resting_index = index_emplace key a e.resting_index;
        node_pool = pool;
      })
