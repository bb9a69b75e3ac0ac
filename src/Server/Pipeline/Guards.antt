-- ===== src/Server/Pipeline/Guards.antt =====
-- Which of the three threads of the pipeline are still at work.
use cpp_demo_build.Prelude.{
  true, Option, some, List, [], ◌∷◌, ◌++◌, ◌≡◌, refl, Bytes, ◌⊎◌, inl, inr, arith, sym, ◌∙◌,
}
use mathlib.Core.List.{cons-ne-nil}
use cpp_demo_build.Lab.EventLoop.{looping, exited, Loop, Turn, take, notice, finish, post, stop}
use cpp_demo_build.Lab.EventLoop.Shutdown.{exited_stays}
use cpp_demo_build.OrderEntry.Messages.{Request}
use cpp_demo_build.OrderEntry.Session.{Decoded, Delivery, on_request, on_rejected, send_packet}
use cpp_demo_build.MarketData.Messages.{Message}
use cpp_demo_build.MatchingEngine.Engine.{Pool, Engine}
use cpp_demo_build.Server.Pipeline.{
  stopped, Pipeline, on_deliveries, started, Step, polls, input_turns, processes, emits,
  processing_turns, publishes, output_turns, stops_input, stops_processing, stops_output, ends,
}

-- A loop is at work, or what may stop it has happened.
abbrev Guarded : {A : Type 0} → Loop A → Type 0 → Type 0
Guarded l P = ((l.running ≡ true) × (l.phase ≡ looping)) ⊎ P

Guarded-Turn :
    {A : Type 0} {l m : Loop A} {task : Option A} (P : Type 0)
    → Turn l task m
    → Guarded l P
    → Guarded m P
Guarded-Turn P t (inr p) = inr p
Guarded-Turn P (take q e) (inl h) = inl h
Guarded-Turn P (notice q s) (inl (r, p)) = absurd (cc)
Guarded-Turn P (finish q e) (inl (r, p)) = absurd (cc)

-- The thread that a loop waits for turns, so it has not exited.
Guarded-prior :
    {A B : Type 0} (l : Loop A) {k k' : Loop B} {task : Option B}
    → Turn k task k'
    → Guarded l (k.phase ≡ exited)
    → Guarded l (k'.phase ≡ exited)
Guarded-prior l t (inl h) = inl h
Guarded-prior l t (inr p) = absurd (exited_stays p t)

-- A thread exits with an empty queue.
abbrev IsDone : {A : Type 0} → Loop A → Type 0
IsDone l = l.phase ≡ exited → l.task_queue ≡ []

IsDone-Turn : {A : Type 0} {l m : Loop A} {task : Option A} → Turn l task m → IsDone m
IsDone-Turn (take (inl p) e) h = absurd (cc)
IsDone-Turn (take (inr p) e) h = absurd (cc)
IsDone-Turn (notice p r) h = absurd (cc)
IsDone-Turn (finish p e) h = e

Turn-not_exited :
    {A : Type 0} {l m : Loop A} {task : A} → Turn l (some task) m → m.phase ≡ exited → ⊥
Turn-not_exited (take (inl p) e) h = cc
Turn-not_exited (take (inr p) e) h = cc

pub on_deliveries-thread :
    (ds : List Delivery) (l : Loop Request)
    → ((on_deliveries ds l).running ≡ l.running) × ((on_deliveries ds l).phase ≡ l.phase)
unfolding on_deliveries post
on_deliveries-thread [] l = (refl, refl)
on_deliveries-thread (on_request r ∷ ds) l = on_deliveries-thread ds (post r l)
on_deliveries-thread (on_rejected x ∷ ds) l = on_deliveries-thread ds l

pub record IsOrdered (s : Pipeline) : Type 0 where
  pub processing_guarded : Guarded s.processing_loop (s.input_loop.phase ≡ exited)
  pub output_guarded : Guarded s.output_loop (s.processing_loop.phase ≡ exited)
  pub processing_done : IsDone s.processing_loop
  pub outbox_done : s.processing_loop.phase ≡ exited → s.outbox ≡ []
  pub output_done : IsDone s.output_loop
  pub all_done : s.stage ≡ stopped → s.output_loop.phase ≡ exited

pub started-IsOrdered : (e : Engine) → IsOrdered (started e)
unfolding started
started-IsOrdered e = record {
  processing_guarded = inl (refl, refl);
  output_guarded = inl (refl, refl);
  processing_done = λ h. refl;
  outbox_done = λ h. refl;
  output_done = λ h. refl;
  all_done = λ h. absurd (cc);
}

module _ (pool : Pool) (decode : Bytes → Decoded) (encode : Message → Bytes) where
  polled :
      (s : Pipeline) (datagram : Bytes)
      → s.input_loop.phase ≡ looping
      → IsOrdered s
      → IsOrdered (record s {
        datagrams = s.datagrams ++ datagram ∷ [];
        processing_loop = on_deliveries (send_packet decode datagram) s.processing_loop;
      })
  polled s datagram p h =
      let (same_running, same_phase) =
        on_deliveries-thread (send_packet decode datagram) s.processing_loop in
      record {
        processing_guarded = ground arith;
        output_guarded = ground arith;
        processing_done = λ x. absurd (ground arith);
        outbox_done = λ x. ground (arith, h.outbox_done);
        output_done = h.output_done;
        all_done = h.all_done;
      }

  pub Step-IsOrdered : {s t : Pipeline} → Step pool decode encode s t → IsOrdered s → IsOrdered t
  unfolding post stop
  Step-IsOrdered {s = s} (polls datagram p) h = polled s datagram p h
  Step-IsOrdered {s = s} (input_turns t) h = record {
    processing_guarded = Guarded-prior s.processing_loop t h.processing_guarded;
    output_guarded = h.output_guarded;
    processing_done = h.processing_done;
    outbox_done = h.outbox_done;
    output_done = h.output_done;
    all_done = h.all_done;
  }
  Step-IsOrdered {s = s} (processes o t e) h = record {
    processing_guarded = Guarded-Turn _ t h.processing_guarded;
    output_guarded = Guarded-prior s.output_loop t h.output_guarded;
    processing_done = IsDone-Turn t;
    outbox_done = λ x. absurd (Turn-not_exited t x);
    output_done = h.output_done;
    all_done = h.all_done;
  }
  Step-IsOrdered {s = s} (emits {m = m} {ms = ms} o) h = record {
    processing_guarded = h.processing_guarded;
    output_guarded = h.output_guarded;
    processing_done = h.processing_done;
    outbox_done = λ x. absurd (cons-ne-nil m ms (sym o ∙ h.outbox_done x));
    output_done = λ x. absurd (emitting x h.output_guarded);
    all_done = h.all_done;
  }
    where
      emitting :
          s.output_loop.phase ≡ exited
          → Guarded s.output_loop (s.processing_loop.phase ≡ exited)
          → ⊥
      emitting x (inl g) = cc
      emitting x (inr g) = cons-ne-nil m ms (sym o ∙ h.outbox_done g)
  Step-IsOrdered {s = s} (processing_turns o t) h = record {
    processing_guarded = Guarded-Turn _ t h.processing_guarded;
    output_guarded = Guarded-prior s.output_loop t h.output_guarded;
    processing_done = IsDone-Turn t;
    outbox_done = λ x. o;
    output_done = h.output_done;
    all_done = h.all_done;
  }
  Step-IsOrdered (publishes t) h = record {
    processing_guarded = h.processing_guarded;
    output_guarded = Guarded-Turn _ t h.output_guarded;
    processing_done = h.processing_done;
    outbox_done = h.outbox_done;
    output_done = IsDone-Turn t;
    all_done = λ x. absurd (exited_stays (h.all_done x) t);
  }
  Step-IsOrdered (output_turns t) h = record {
    processing_guarded = h.processing_guarded;
    output_guarded = Guarded-Turn _ t h.output_guarded;
    processing_done = h.processing_done;
    outbox_done = h.outbox_done;
    output_done = IsDone-Turn t;
    all_done = λ x. absurd (exited_stays (h.all_done x) t);
  }
  Step-IsOrdered (stops_input p) h = record {
    processing_guarded = h.processing_guarded;
    output_guarded = h.output_guarded;
    processing_done = h.processing_done;
    outbox_done = h.outbox_done;
    output_done = h.output_done;
    all_done = λ x. absurd (cc);
  }
  Step-IsOrdered (stops_processing p q) h = record {
    processing_guarded = inr q;
    output_guarded = h.output_guarded;
    processing_done = h.processing_done;
    outbox_done = h.outbox_done;
    output_done = h.output_done;
    all_done = λ x. absurd (cc);
  }
  Step-IsOrdered (stops_output p q) h = record {
    processing_guarded = h.processing_guarded;
    output_guarded = inr q;
    processing_done = h.processing_done;
    outbox_done = h.outbox_done;
    output_done = h.output_done;
    all_done = λ x. absurd (cc);
  }
  Step-IsOrdered (ends p q) h = record {
    processing_guarded = h.processing_guarded;
    output_guarded = h.output_guarded;
    processing_done = h.processing_done;
    outbox_done = h.outbox_done;
    output_done = h.output_done;
    all_done = λ x. q;
  }
