-- ===== src/Server/Pipeline/Threads.antt =====
-- How far each of the three threads is at each stage of `stop`.
use cpp_demo_build.Prelude.{true, ◌≡◌, refl, Bytes, inl, inr, subst, ◌∙◌, Option}
use cpp_demo_build.Lab.EventLoop.{looping, exited, Loop, Turn, take, notice, finish, post, stop}
use cpp_demo_build.Lab.EventLoop.Shutdown.{IsLeaving, exited_stays, Turn-IsLeaving}
use cpp_demo_build.OrderEntry.Session.{Decoded, send_packet}
use cpp_demo_build.MarketData.Messages.{Message}
use cpp_demo_build.MatchingEngine.Engine.{Pool, Engine}
use cpp_demo_build.Server.Pipeline.{
  Stage, serving, joining_input, joining_processing, joining_output, stopped, Pipeline, started,
  Step, polls, input_turns, processes, emits, processing_turns, publishes, output_turns,
  stops_input, stops_processing, stops_output, ends, Reach, starts, next,
}
use cpp_demo_build.Server.Pipeline.Guards.{on_deliveries-thread}

pub data Status : Type 0 where
  working leaving gone : Status

abbrev pub Fits : {A : Type 0} → Status → Loop A → Type 0
Fits working l = (l.running ≡ true) × (l.phase ≡ looping)
Fits leaving l = IsLeaving l
Fits gone l = l.phase ≡ exited

abbrev pub input_at : Stage → Status
input_at serving = working
input_at joining_input = leaving
input_at joining_processing = gone
input_at joining_output = gone
input_at stopped = gone

abbrev pub processing_at : Stage → Status
processing_at serving = working
processing_at joining_input = working
processing_at joining_processing = leaving
processing_at joining_output = gone
processing_at stopped = gone

abbrev pub output_at : Stage → Status
output_at serving = working
output_at joining_input = working
output_at joining_processing = working
output_at joining_output = leaving
output_at stopped = gone

pub record IsStaged (s : Pipeline) : Type 0 where
  pub input : Fits (input_at s.stage) s.input_loop
  pub processing : Fits (processing_at s.stage) s.processing_loop
  pub output : Fits (output_at s.stage) s.output_loop

Fits-Turn :
    {A : Type 0} (st : Status) {l m : Loop A} {task : Option A}
    → Turn l task m
    → Fits st l
    → Fits st m
Fits-Turn working (take p e) h = h
Fits-Turn working (notice p r) h = absurd (cc)
Fits-Turn working (finish p e) h = absurd (cc)
Fits-Turn leaving t (inl h) = Turn-IsLeaving h t
Fits-Turn leaving t (inr h) = absurd (exited_stays h t)
Fits-Turn gone t h = absurd (exited_stays h t)

-- What looks at the flag and the thread alone.
Fits-same :
    {A : Type 0} (st : Status) (l m : Loop A)
    → m.running ≡ l.running
    → m.phase ≡ l.phase
    → Fits st l
    → Fits st m
Fits-same working l m r p h = (r ∙ h.0, p ∙ h.1)
Fits-same leaving l m r p (inl (q, inl h)) = inl (r ∙ q, inl (p ∙ h))
Fits-same leaving l m r p (inl (q, inr h)) = inl (r ∙ q, inr (p ∙ h))
Fits-same leaving l m r p (inr h) = inr (p ∙ h)
Fits-same gone l m r p h = p ∙ h

pub stop-IsLeaving : {A : Type 0} (l : Loop A) → Fits working l → IsLeaving (stop l)
unfolding stop
stop-IsLeaving l h = inl (refl, inl h.1)

at_stage :
    {A : Type 0} (f : Stage → Status) (l : Loop A) {a b : Stage}
    → a ≡ b
    → Fits (f a) l
    → Fits (f b) l
at_stage f l e h = subst (λ c. Fits (f c) l) e h

started-IsStaged : (e : Engine) → IsStaged (started e)
unfolding started
started-IsStaged e = record {
  input = (refl, refl);
  processing = (refl, refl);
  output = (refl, refl);
}

module _ (pool : Pool) (decode : Bytes → Decoded) (encode : Message → Bytes) where
  Step-IsStaged : {s t : Pipeline} → Step pool decode encode s t → IsStaged s → IsStaged t
  unfolding post
  Step-IsStaged {s = s} (polls datagram p) h =
      let (r, q) = on_deliveries-thread (send_packet decode datagram) s.processing_loop in
      record {
        input = h.input;
        processing = Fits-same (processing_at s.stage) s.processing_loop _ r q h.processing;
        output = h.output;
      }
  Step-IsStaged {s = s} (input_turns t) h = record {
    input = Fits-Turn (input_at s.stage) t h.input;
    processing = h.processing;
    output = h.output;
  }
  Step-IsStaged {s = s} (processes o t e) h = record {
    input = h.input;
    processing = Fits-Turn (processing_at s.stage) t h.processing;
    output = h.output;
  }
  Step-IsStaged {s = s} (emits o) h = record {
    input = h.input;
    processing = h.processing;
    output = Fits-same (output_at s.stage) s.output_loop _ refl refl h.output;
  }
  Step-IsStaged {s = s} (processing_turns o t) h = record {
    input = h.input;
    processing = Fits-Turn (processing_at s.stage) t h.processing;
    output = h.output;
  }
  Step-IsStaged {s = s} (publishes t) h = record {
    input = h.input;
    processing = h.processing;
    output = Fits-Turn (output_at s.stage) t h.output;
  }
  Step-IsStaged {s = s} (output_turns t) h = record {
    input = h.input;
    processing = h.processing;
    output = Fits-Turn (output_at s.stage) t h.output;
  }
  Step-IsStaged {s = s} (stops_input p) h = record {
    input = stop-IsLeaving s.input_loop (at_stage input_at s.input_loop p h.input);
    processing = at_stage processing_at s.processing_loop p h.processing;
    output = at_stage output_at s.output_loop p h.output;
  }
  Step-IsStaged {s = s} (stops_processing p q) h = record {
    input = q;
    processing =
        stop-IsLeaving s.processing_loop (at_stage processing_at s.processing_loop p h.processing);
    output = at_stage output_at s.output_loop p h.output;
  }
  Step-IsStaged {s = s} (stops_output p q) h = record {
    input = at_stage input_at s.input_loop p h.input;
    processing = q;
    output = stop-IsLeaving s.output_loop (at_stage output_at s.output_loop p h.output);
  }
  Step-IsStaged {s = s} (ends p q) h = record {
    input = at_stage input_at s.input_loop p h.input;
    processing = at_stage processing_at s.processing_loop p h.processing;
    output = q;
  }

  module _ (e : Engine) where
    pub Reach-IsStaged : {s : Pipeline} → Reach pool decode encode e s → IsStaged s
    Reach-IsStaged starts = started-IsStaged e
    Reach-IsStaged (next r t) = Step-IsStaged t (Reach-IsStaged r)
