-- ===== src/Server/Pipeline/Stopped.antt =====
-- What has been written when `stop` returns.
use cpp_demo_build.Prelude.{
  true, List, [], ◌∷◌, ◌++◌, map, ◌≡◌, refl, Bytes, ◌⊎◌, inl, inr, sym, ap, ◌∙◌,
}
use mathlib.Core.List.{append_assoc, append-nil, map-append}
use cpp_demo_build.Lab.EventLoop.{looping, exited, Loop, post, stop}
use cpp_demo_build.Lab.EventLoop.Order.{Turn-some-queue, Turn-none-queue}
use cpp_demo_build.OrderEntry.Messages.{Request}
use cpp_demo_build.OrderEntry.Session.{Decoded, Delivery, on_request, on_rejected, send_packet}
use cpp_demo_build.MarketData.Messages.{Message}
use cpp_demo_build.MatchingEngine.Outcome.{done}
use cpp_demo_build.MatchingEngine.Engine.{Pool, Engine}
use cpp_demo_build.Server.Pipeline.{
  stopped, Pipeline, on_deliveries, started, Step, polls, market_data_of, input_turns, processes,
  emits, processing_turns, publishes, output_turns, stops_input, stops_processing, stops_output,
  ends, Reach, starts, next,
}
use cpp_demo_build.Server.Pipeline.Guards.{IsOrdered, started-IsOrdered, Step-IsOrdered}
use cpp_demo_build.Server.Pipeline.Serving.{
  requests_of, requested, serve, requested-snoc, serve-snoc,
}

on_deliveries-queue :
    (ds : List Delivery) (l : Loop Request)
    → (on_deliveries ds l).task_queue ≡ l.task_queue ++ requests_of ds
unfolding on_deliveries post
on_deliveries-queue [] l = sym (append-nil l.task_queue)
on_deliveries-queue (on_request r ∷ ds) l =
    on_deliveries-queue ds (post r l) ∙ append_assoc l.task_queue (r ∷ []) (requests_of ds)
on_deliveries-queue (on_rejected x ∷ ds) l = on_deliveries-queue ds l

module _ (pool : Pool) (decode : Bytes → Decoded) (encode : Message → Bytes) (e0 : Engine) where
  -- Up to now the engine has served the first of the requests, and what it emitted is written, waits in
  -- the output loop or is yet to be posted.
  record IsServing (s : Pipeline) : Type 0 where
    served : List Request
    produced : List Message
    serves : serve pool e0 served ≡ done (s.engine, produced)
    all_requests : requested decode s.datagrams ≡ served ++ s.processing_loop.task_queue
    all_records :
        map encode produced ≡ s.records ++ map encode (s.output_loop.task_queue ++ s.outbox)

  started-IsServing : IsServing (started e0)
  unfolding started serve requested
  started-IsServing = record {
    served = [];
    produced = [];
    serves = refl;
    all_requests = refl;
    all_records = refl;
  }

  Step-IsServing : {s t : Pipeline} → Step pool decode encode s t → IsServing s → IsServing t
  unfolding post stop
  Step-IsServing {s = s} (polls datagram p) h = record {
    served = h.served;
    produced = h.produced;
    serves = h.serves;
    all_requests =
        requested-snoc decode s.datagrams datagram
        ∙ ap (λ (rs : List Request). rs ++ requests_of (send_packet decode datagram)) h.all_requests
        ∙ append_assoc h.served s.processing_loop.task_queue
            (requests_of (send_packet decode datagram))
        ∙ ap (λ (q : List Request). h.served ++ q)
            (sym (on_deliveries-queue (send_packet decode datagram) s.processing_loop));
    all_records = h.all_records;
  }
  Step-IsServing (input_turns t) h = record {
    served = h.served;
    produced = h.produced;
    serves = h.serves;
    all_requests = h.all_requests;
    all_records = h.all_records;
  }
  Step-IsServing {s = s} (processes {r = r} {l = l} {e = e} o t call) h = record {
    served = h.served ++ r ∷ [];
    produced = h.produced ++ market_data_of e.emitted;
    serves = serve-snoc pool e0 h.served r s.engine e h.produced h.serves call;
    all_requests =
        h.all_requests
        ∙ ap (λ (q : List Request). h.served ++ q) (Turn-some-queue t)
        ∙ sym (append_assoc h.served (r ∷ []) l.task_queue);
    all_records =
        map-append encode h.produced (market_data_of e.emitted)
        ∙ ap (λ (p : List Bytes). p ++ map encode (market_data_of e.emitted)) h.all_records
        ∙ append_assoc s.records (map encode (s.output_loop.task_queue ++ s.outbox))
            (map encode (market_data_of e.emitted))
        ∙ ap (λ (q : List Bytes). s.records ++ q) posted;
  }
    where
      posted :
          map encode (s.output_loop.task_queue ++ s.outbox) ++ map encode (market_data_of e.emitted)
          ≡ map encode (s.output_loop.task_queue ++ market_data_of e.emitted)
      posted =
          ap
            (λ (q : List Message).
              map encode (s.output_loop.task_queue ++ q) ++ map encode (market_data_of e.emitted))
            o
          ∙ ap (λ (q : List Message). map encode q ++ map encode (market_data_of e.emitted))
              (append-nil s.output_loop.task_queue)
          ∙ sym (map-append encode s.output_loop.task_queue (market_data_of e.emitted))
  Step-IsServing {s = s} (emits {m = m} {ms = ms} o) h = record {
    served = h.served;
    produced = h.produced;
    serves = h.serves;
    all_requests = h.all_requests;
    all_records =
        h.all_records
        ∙ ap (λ (q : List Message). s.records ++ map encode (s.output_loop.task_queue ++ q)) o
        ∙ ap (λ (q : List Message). s.records ++ map encode q)
            (sym (append_assoc s.output_loop.task_queue (m ∷ []) ms));
  }
  Step-IsServing {s = s} (processing_turns o t) h = record {
    served = h.served;
    produced = h.produced;
    serves = h.serves;
    all_requests =
        h.all_requests ∙ ap (λ (q : List Request). h.served ++ q) (sym (Turn-none-queue t));
    all_records = h.all_records;
  }
  Step-IsServing {s = s} (publishes {m = m} {l = l} t) h = record {
    served = h.served;
    produced = h.produced;
    serves = h.serves;
    all_requests = h.all_requests;
    all_records =
        h.all_records
        ∙ ap (λ (q : List Message). s.records ++ map encode (q ++ s.outbox)) (Turn-some-queue t)
        ∙ sym (append_assoc s.records (encode m ∷ []) (map encode (l.task_queue ++ s.outbox)));
  }
  Step-IsServing {s = s} (output_turns t) h = record {
    served = h.served;
    produced = h.produced;
    serves = h.serves;
    all_requests = h.all_requests;
    all_records =
        h.all_records
        ∙ ap (λ (q : List Message). s.records ++ map encode (q ++ s.outbox))
            (sym (Turn-none-queue t));
  }
  Step-IsServing (stops_input p) h = record {
    served = h.served;
    produced = h.produced;
    serves = h.serves;
    all_requests = h.all_requests;
    all_records = h.all_records;
  }
  Step-IsServing (stops_processing p q) h = record {
    served = h.served;
    produced = h.produced;
    serves = h.serves;
    all_requests = h.all_requests;
    all_records = h.all_records;
  }
  Step-IsServing (stops_output p q) h = record {
    served = h.served;
    produced = h.produced;
    serves = h.serves;
    all_requests = h.all_requests;
    all_records = h.all_records;
  }
  Step-IsServing (ends p q) h = record {
    served = h.served;
    produced = h.produced;
    serves = h.serves;
    all_requests = h.all_requests;
    all_records = h.all_records;
  }

  Reach-IsOrdered : {s : Pipeline} → Reach pool decode encode e0 s → IsOrdered s
  Reach-IsOrdered starts = started-IsOrdered e0
  Reach-IsOrdered (next r t) = Step-IsOrdered pool decode encode t (Reach-IsOrdered r)

  Reach-IsServing : {s : Pipeline} → Reach pool decode encode e0 s → IsServing s
  Reach-IsServing starts = started-IsServing
  Reach-IsServing (next r t) = Step-IsServing t (Reach-IsServing r)

  Exited : Pipeline → Type 0
  Exited s = (s.processing_loop.task_queue ≡ []) × (s.outbox ≡ []) × (s.output_loop.task_queue ≡ [])

  stopped-Exited : (s : Pipeline) → IsOrdered s → s.stage ≡ stopped → Exited s
  unfolding Exited
  stopped-Exited s h e =
      let gone = exited_before h.output_guarded in
      (h.processing_done gone, h.outbox_done gone, h.output_done (h.all_done e))
    where
      exited_before :
          ((s.output_loop.running ≡ true) × (s.output_loop.phase ≡ looping))
            ⊎ (s.processing_loop.phase ≡ exited)
          → s.processing_loop.phase ≡ exited
      exited_before (inl g) = absurd (clash g.1 (h.all_done e))
        where
          clash : s.output_loop.phase ≡ looping → s.output_loop.phase ≡ exited → ⊥
          clash a b = cc
      exited_before (inr g) = g

  -- Whatever the interleaving of the three threads with the one that stops them: when `stop` is done,
  -- the sink has, in their order and each once, the records of exactly the market data that the engine
  -- emits when it serves all the requests that were received, one after the other.
  pub stopped-records :
      {s : Pipeline}
      → Reach pool decode encode e0 s
      → s.stage ≡ stopped
      → (produced : List Message) × (serve pool e0 (requested decode s.datagrams)
          ≡ done (s.engine, produced))
        × (s.records ≡ map encode produced)
  unfolding Exited
  stopped-records {s = s} reach e =
      let h = Reach-IsServing reach in
      let (no_requests, no_outbox, no_messages) = stopped-Exited s (Reach-IsOrdered reach) e in
      (
        h.produced,
        ap (serve pool e0) (
              h.all_requests
              ∙ ap (λ (q : List Request). h.served ++ q) no_requests
              ∙ append-nil h.served)
            ∙ h.serves,
        sym (
            h.all_records
            ∙ ap (λ (q : List Message). s.records ++ map encode (q ++ s.outbox)) no_messages
            ∙ ap (λ (q : List Message). s.records ++ map encode q) no_outbox
            ∙ append-nil s.records),
      )
