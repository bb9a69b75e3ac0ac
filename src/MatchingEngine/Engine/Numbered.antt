-- ===== src/MatchingEngine/Engine/Numbered.antt =====
-- The identities of what the engine emits: those of the execution reports and those of the trades are
-- consecutive.
use cpp_demo_build.Prelude.{
  ℕ, ◌≡◌, refl, Option, List, [], ◌∷◌, ◌++◌, Bytes, add64, ap, ◌∙◌, sym, subst,
}
use cpp_demo_build.OrderEntry.Types.{
  ExecType, OrdStatus, OrigClOrdId, Quantity, Price, RejectReason, Side, SecurityId,
}
use cpp_demo_build.OrderEntry.Messages.{execution_report, cancel_reject, CancelOrder}
use cpp_demo_build.MarketData.Messages as mm
use cpp_demo_build.MatchingEngine.Types.{OrderState, OrderNode}
use cpp_demo_build.MatchingEngine.Book.{OrderBook}
use cpp_demo_build.MatchingEngine.Engine.{
  Engine, Emission, market_data, order_entry, emit, emit_execution_report, emit_cancel_reject,
  emit_mbo_book_update, on_trade, on_release,
}

abbrev pub exec_ids : List Emission → List ℕ
exec_ids [] = []
exec_ids (order_entry (execution_report r) ∷ es) = r.exec_id ∷ exec_ids es
exec_ids (order_entry (cancel_reject r) ∷ es) = exec_ids es
exec_ids (market_data m ∷ es) = exec_ids es

abbrev pub trade_ids : List Emission → List ℕ
trade_ids [] = []
trade_ids (market_data (mm.Message.trade t) ∷ es) = t.trade_id ∷ trade_ids es
trade_ids (market_data (mm.Message.security_definition m) ∷ es) = trade_ids es
trade_ids (market_data (mm.Message.security_status m) ∷ es) = trade_ids es
trade_ids (market_data (mm.Message.execution_summary m) ∷ es) = trade_ids es
trade_ids (market_data (mm.Message.mbo_book_update m) ∷ es) = trade_ids es
trade_ids (order_entry e ∷ es) = trade_ids es

-- The numbers count up from the first, in words of 64 bits, and the last one is the next.
abbrev pub Consecutive : ℕ → List ℕ → ℕ → Type 0
Consecutive first [] next = first ≡ next
Consecutive first (i ∷ is) next = (i ≡ first) × Consecutive (add64 first 1) is next

pub record Numbered (e : Engine) : Type 0 where
  pub reports : Consecutive 1 (exec_ids e.emitted) e.next_exec_id
  pub trades : Consecutive 1 (trade_ids e.emitted) e.next_trade_id

Consecutive-snoc :
    (first : ℕ) (is : List ℕ) (next : ℕ)
    → Consecutive first is next
    → Consecutive first (is ++ next ∷ []) (add64 next 1)
Consecutive-snoc first [] next h = (sym h, ap (λ n. add64 n 1) h)
Consecutive-snoc first (i ∷ is) next h = (h.0, Consecutive-snoc (add64 first 1) is next h.1)

exec_ids-append : (es fs : List Emission) → exec_ids (es ++ fs) ≡ exec_ids es ++ exec_ids fs
exec_ids-append [] fs = refl
exec_ids-append (order_entry (execution_report r) ∷ es) fs =
    ap (λ (l : List ℕ). r.exec_id ∷ l) (exec_ids-append es fs)
exec_ids-append (order_entry (cancel_reject r) ∷ es) fs = exec_ids-append es fs
exec_ids-append (market_data m ∷ es) fs = exec_ids-append es fs

trade_ids-append : (es fs : List Emission) → trade_ids (es ++ fs) ≡ trade_ids es ++ trade_ids fs
trade_ids-append [] fs = refl
trade_ids-append (market_data (mm.Message.trade t) ∷ es) fs =
    ap (λ (l : List ℕ). t.trade_id ∷ l) (trade_ids-append es fs)
trade_ids-append (market_data (mm.Message.security_definition m) ∷ es) fs = trade_ids-append es fs
trade_ids-append (market_data (mm.Message.security_status m) ∷ es) fs = trade_ids-append es fs
trade_ids-append (market_data (mm.Message.execution_summary m) ∷ es) fs = trade_ids-append es fs
trade_ids-append (market_data (mm.Message.mbo_book_update m) ∷ es) fs = trade_ids-append es fs
trade_ids-append (order_entry x ∷ es) fs = trade_ids-append es fs

append_nil : (is : List ℕ) → is ++ [] ≡ is
append_nil [] = refl
append_nil (i ∷ is) = ap (λ (l : List ℕ). i ∷ l) (append_nil is)

-- An emission with neither identity.
emit-Numbered :
    (e : Engine) (m : Emission)
    → exec_ids (m ∷ []) ≡ []
    → trade_ids (m ∷ []) ≡ []
    → Numbered e
    → Numbered (emit e m)
emit-Numbered e m no_report no_trade h = record {
  reports =
      subst (λ is. Consecutive 1 is e.next_exec_id)
        (sym (
          exec_ids-append e.emitted (m ∷ [])
          ∙ ap (λ (l : List ℕ). exec_ids e.emitted ++ l) no_report
          ∙ append_nil (exec_ids e.emitted)))
        h.reports;
  trades =
      subst (λ is. Consecutive 1 is e.next_trade_id)
        (sym (
          trade_ids-append e.emitted (m ∷ [])
          ∙ ap (λ (l : List ℕ). trade_ids e.emitted ++ l) no_trade
          ∙ append_nil (trade_ids e.emitted)))
        h.trades;
}

pub emit_execution_report-Numbered :
    (e : Engine) (order : OrderState) (x : ExecType) (s : OrdStatus) (o : Option OrigClOrdId)
    (q : Option Quantity) (p : Option Price)
    → Numbered e
    → Numbered (emit_execution_report e order x s o q p)
unfolding emit_execution_report
emit_execution_report-Numbered e order x s o q p h = record {
  reports =
      subst (λ is. Consecutive 1 is (add64 e.next_exec_id 1)) (sym (exec_ids-append e.emitted _))
        (Consecutive-snoc 1 (exec_ids e.emitted) e.next_exec_id h.reports);
  trades =
      subst (λ is. Consecutive 1 is e.next_trade_id)
        (sym (trade_ids-append e.emitted _ ∙ append_nil (trade_ids e.emitted))) h.trades;
}

pub emit_cancel_reject-Numbered :
    (e : Engine) (c : CancelOrder) (r : RejectReason) (t : Bytes)
    → Numbered e
    → Numbered (emit_cancel_reject e c r t)
unfolding emit_cancel_reject
emit_cancel_reject-Numbered e c r t h = emit-Numbered e _ refl refl h

pub emit_mbo_book_update-Numbered :
    (e : Engine) (b : OrderBook) (s : Side) (i : SecurityId)
    → Numbered e
    → Numbered (emit_mbo_book_update e b s i)
unfolding emit_mbo_book_update
emit_mbo_book_update-Numbered e b s i h = emit-Numbered e _ refl refl h

pub emit_summary-Numbered :
    (e : Engine) (m : mm.ExecutionSummary)
    → Numbered e
    → Numbered (emit e (market_data (mm.Message.execution_summary m)))
emit_summary-Numbered e m h = emit-Numbered e _ refl refl h

pub on_trade-Numbered : (t : mm.Trade) (e : Engine) → Numbered e → Numbered (on_trade t e)
unfolding on_trade
on_trade-Numbered t e h = record {
  reports =
      subst (λ is. Consecutive 1 is e.next_exec_id)
        (sym (exec_ids-append e.emitted _ ∙ append_nil (exec_ids e.emitted))) h.reports;
  trades =
      subst (λ is. Consecutive 1 is (add64 e.next_trade_id 1)) (sym (trade_ids-append e.emitted _))
        (Consecutive-snoc 1 (trade_ids e.emitted) e.next_trade_id h.trades);
}

pub on_release-Numbered : (n : OrderNode) (e : Engine) → Numbered e → Numbered (on_release n e)
unfolding on_release
on_release-Numbered n e h = record { reports = h.reports; trades = h.trades }
