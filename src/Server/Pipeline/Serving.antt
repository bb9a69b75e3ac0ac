-- ===== src/Server/Pipeline/Serving.antt =====
-- What the pipeline computes: the requests of the datagrams, one after the other.
use cpp_demo_build.Prelude.{List, [], ◌∷◌, ◌++◌, ◌≡◌, refl, Bytes, ap, ◌∙◌, sym}
use mathlib.Core.List.{append_assoc, append-nil}
use cpp_demo_build.OrderEntry.Messages.{Request}
use cpp_demo_build.OrderEntry.Session.{Decoded, Delivery, on_request, on_rejected, send_packet}
use cpp_demo_build.MarketData.Messages.{Message}
use cpp_demo_build.MatchingEngine.Outcome.{Outcome, done, fault, ◌>>=◌}
use cpp_demo_build.MatchingEngine.Engine.{Pool, Engine}
use cpp_demo_build.MatchingEngine.Engine.Dispatch.{send}
use cpp_demo_build.Server.Pipeline.{market_data_of, begin_call}

abbrev pub requests_of : List Delivery → List Request
requests_of [] = []
requests_of (on_request r ∷ ds) = r ∷ requests_of ds
requests_of (on_rejected rejection ∷ ds) = requests_of ds

-- The requests that a session makes of datagrams.
unfoldable pub requested : (Bytes → Decoded) → List Bytes → List Request
requested decode [] = []
requested decode (d ∷ ds) = requests_of (send_packet decode d) ++ requested decode ds

-- The engine after requests, with the market data that it emitted in all.
unfoldable pub serve : Pool → Engine → List Request → Outcome (Engine × List Message)
serve pool e [] = done (e, [])
serve pool e (r ∷ rs) = do
  e1 ← send pool (begin_call e) r
  (e2, ms) ← serve pool e1 rs
  done (e2, market_data_of e1.emitted ++ ms)

pub requested-snoc :
    (decode : Bytes → Decoded) (ds : List Bytes) (d : Bytes)
    → requested decode (ds ++ d ∷ []) ≡ requested decode ds ++ requests_of (send_packet decode d)
unfolding requested
requested-snoc decode [] d = append-nil (requests_of (send_packet decode d))
requested-snoc decode (c ∷ ds) d =
    ap (λ (rs : List Request). requests_of (send_packet decode c) ++ rs)
      (requested-snoc decode ds d)
    ∙ sym (
        append_assoc (requests_of (send_packet decode c)) (requested decode ds)
          (requests_of (send_packet decode d)))

-- Inversion of a bind that returns.
pub >>=-eq-done :
    {A B : Type 0} (o : Outcome A) (f : A → Outcome B) (b : B)
    → (o >>= f) ≡ done b
    → (a : A) × (o ≡ done a) × (f a ≡ done b)
>>=-eq-done (done a) f b h = (a, refl, h)
>>=-eq-done (fault x) f b h = cc

pub serve-snoc :
    (pool : Pool) (e : Engine) (rs : List Request) (r : Request) (e1 e2 : Engine)
    (ms : List Message)
    → serve pool e rs ≡ done (e1, ms)
    → send pool (begin_call e1) r ≡ done e2
    → serve pool e (rs ++ r ∷ []) ≡ done (e2, ms ++ market_data_of e2.emitted)
unfolding serve
serve-snoc pool e [] r e1 e2 ms h k =
    let same : e ≡ e1 = cc in
    let none_yet : [] ≡ ms = cc in
    rw (same, k, ← none_yet, append-nil (market_data_of e2.emitted)) refl
serve-snoc pool e (q ∷ rs) r e1 e2 ms h k =
    let (e3, first, rest) = >>=-eq-done (send pool (begin_call e) q) _ (e1, ms) h in
    let ((e4, ms4), later, last) = >>=-eq-done (serve pool e3 rs) _ (e1, ms) rest in
    let same : e4 ≡ e1 = cc in
    let all_of : market_data_of e3.emitted ++ ms4 ≡ ms = cc in
    let ih =
      serve-snoc pool e3 rs r e1 e2 ms4
        (later
          ∙ ap (λ (x : Engine). let y : Outcome (Engine × List Message) = done (x, ms4) in y) same)
        k in
    rw (first, ih)
      (ap (λ (l : List Message). let y : Outcome (Engine × List Message) = done (e2, l) in y)
        (sym (append_assoc (market_data_of e3.emitted) ms4 (market_data_of e2.emitted))
          ∙ ap (λ (l : List Message). l ++ market_data_of e2.emitted) all_of))
