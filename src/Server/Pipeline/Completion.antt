-- ===== src/Server/Pipeline/Completion.antt =====
-- Runs of the pipeline up to the end of `stop`.
use cpp_demo_build.Prelude.{List, [], ◌∷◌, ◌≡◌, refl, Bytes, inl, inr}
use cpp_demo_build.Lab.EventLoop.{exited, take, notice, finish, post, stop}
use cpp_demo_build.Lab.EventLoop.Shutdown.{IsLeaving}
use cpp_demo_build.OrderEntry.Messages.{Request}
use cpp_demo_build.OrderEntry.Session.{Decoded}
use cpp_demo_build.MarketData.Messages.{Message}
use cpp_demo_build.MatchingEngine.Outcome.{done}
use cpp_demo_build.MatchingEngine.Engine.{Pool, Engine}
use cpp_demo_build.MatchingEngine.Engine.Dispatch.{send}
use cpp_demo_build.Server.Pipeline.{
  Stage, serving, joining_input, joining_processing, joining_output, stopped, Pipeline, begin_call,
  Step, input_turns, processes, emits, processing_turns, publishes, output_turns, stops_input,
  stops_processing, stops_output, ends, Reach,
}
use cpp_demo_build.Server.Pipeline.Serving.{serve, >>=-eq-done}
use cpp_demo_build.Server.Pipeline.Threads.{
  Fits, working, input_at, processing_at, output_at, Reach-IsStaged, stop-IsLeaving,
}

no_task : (q : List ⊥) → q ≡ []
no_task [] = refl
no_task (x ∷ q) = absurd x

module _ (pool : Pool) (decode : Bytes → Decoded) (encode : Message → Bytes) where
  -- Steps one after the other.
  pub data Steps : Pipeline → Pipeline → Type 0 where
    here : {s : Pipeline} → Steps s s
    step : {s t u : Pipeline} → Step pool decode encode s t → Steps t u → Steps s u

  abbrev pub CanStop : Pipeline → Type 0
  CanStop s = (t : Pipeline) × Steps s t × (t.stage ≡ stopped)

  by_step : {s t : Pipeline} → Step pool decode encode s t → CanStop t → CanStop s
  by_step st (u, sts, e) = (u, step st sts, e)

  end : (s : Pipeline) → s.stage ≡ joining_output → s.output_loop.phase ≡ exited → CanStop s
  end s at x = by_step (ends at x) (_, here, refl)

  output_down :
      (q : List Message) (s : Pipeline)
      → s.output_loop.task_queue ≡ q
      → s.stage ≡ joining_output
      → IsLeaving s.output_loop
      → CanStop s
  output_down q s e at (inr x) = end s at x
  output_down (m ∷ q) s e at (inl (r, p)) =
      by_step (publishes (take p e)) (output_down q _ refl at (inl (r, p)))
  output_down [] s e at (inl (r, inr p)) = by_step (output_turns (finish p e)) (end _ at refl)
  output_down [] s e at (inl (r, inl p)) =
      by_step (output_turns (notice p r)) (by_step (output_turns (finish refl e)) (end _ at refl))

  -- The processing loop is to be joined, and its tasks are `q`.
  record IsJoining (q : List Request) (s : Pipeline) : Type 0 where
    at : s.stage ≡ joining_processing
    queue : s.processing_loop.task_queue ≡ q
    leaves : IsLeaving s.processing_loop
    works : Fits working s.output_loop
    served : Engine × List Message
    serves : serve pool s.engine q ≡ done served

  emit_all :
      (q : List Request) (ms : List Message) (s : Pipeline)
      → s.outbox ≡ ms
      → IsJoining q s
      → ((t : Pipeline) → t.outbox ≡ [] → IsJoining q t → CanStop t)
      → CanStop s
  unfolding post
  emit_all q [] s e h after = after s e h
  emit_all q (m ∷ ms) s e h after = by_step (emits e) (
      emit_all q ms _ refl
        (record {
          at = h.at;
          queue = h.queue;
          leaves = h.leaves;
          works = h.works;
          served = h.served;
          serves = h.serves;
        })
        after)

  stop_output :
      {q : List Request} (s : Pipeline)
      → IsJoining q s
      → s.processing_loop.phase ≡ exited
      → CanStop s
  stop_output s h x = by_step (stops_output h.at x) (
      output_down (stop s.output_loop).task_queue _ refl refl
        (stop-IsLeaving s.output_loop h.works))

  -- The next task calls the engine.
  run_task :
      (r : Request) (q : List Request) (s : Pipeline)
      → s.outbox ≡ []
      → IsJoining (r ∷ q) s
      → ((t : Pipeline) → IsJoining q t → CanStop t)
      → CanStop s
  unfolding serve
  run_task r q s e h after = ran h.leaves
    where
      ran : IsLeaving s.processing_loop → CanStop s
      ran (inr x) = stop_output s h x
      ran (inl (off, p)) =
          let (e1, sent, rest) =
            >>=-eq-done (send pool (begin_call s.engine) r) _ h.served h.serves in
          let (last, later, same) = >>=-eq-done (serve pool e1 q) _ h.served rest in
          by_step (processes e (take p h.queue) sent) (
            after _ (record {
              at = h.at;
              queue = refl;
              leaves = inl (off, p);
              works = h.works;
              served = last;
              serves = later;
            }))

  no_more_tasks : (s : Pipeline) → s.outbox ≡ [] → IsJoining [] s → CanStop s
  no_more_tasks s e h = ran h.leaves
    where
      ran : IsLeaving s.processing_loop → CanStop s
      ran (inr x) = stop_output s h x
      ran (inl (off, inr p)) = by_step (processing_turns e (finish p h.queue)) (
          stop_output {q = []} _
            (record {
              at = h.at;
              queue = h.queue;
              leaves = inr refl;
              works = h.works;
              served = h.served;
              serves = h.serves;
            })
            refl)
      ran (inl (off, inl p)) = by_step (processing_turns e (notice p off)) (
          by_step (processing_turns e (finish refl h.queue)) (
            stop_output {q = []} _
              (record {
                at = h.at;
                queue = h.queue;
                leaves = inr refl;
                works = h.works;
                served = h.served;
                serves = h.serves;
              })
              refl))

  processing_down : (q : List Request) (s : Pipeline) → IsJoining q s → CanStop s
  processing_down [] s h = emit_all [] s.outbox s refl h no_more_tasks
  processing_down (r ∷ q) s h =
      emit_all (r ∷ q) s.outbox s refl h
        (λ t e k. run_task r q t e k (λ u n. processing_down q u n))

  -- What the engine still has to serve can be served.
  abbrev pub IsServable : Pipeline → Type 0
  IsServable s =
      (served : Engine × List Message) × (serve pool s.engine s.processing_loop.task_queue
        ≡ done served)

  stop_processing :
      (s : Pipeline)
      → s.stage ≡ joining_input
      → Fits working s.processing_loop
      → Fits working s.output_loop
      → IsServable s
      → s.input_loop.phase ≡ exited
      → CanStop s
  unfolding stop
  stop_processing s at p o (served, serves) x = by_step (stops_processing at x) (
      processing_down s.processing_loop.task_queue _ (record {
        at = refl;
        queue = refl;
        leaves = stop-IsLeaving s.processing_loop p;
        works = o;
        served = served;
        serves = serves;
      }))

  input_down :
      (s : Pipeline)
      → s.stage ≡ joining_input
      → IsLeaving s.input_loop
      → Fits working s.processing_loop
      → Fits working s.output_loop
      → IsServable s
      → CanStop s
  input_down s at (inr x) p o h = stop_processing s at p o h x
  input_down s at (inl (off, inr q)) p o h =
      by_step (input_turns (finish q (no_task s.input_loop.task_queue)))
        (stop_processing _ at p o h refl)
  input_down s at (inl (off, inl q)) p o h = by_step (input_turns (notice q off)) (
      by_step (input_turns (finish refl (no_task s.input_loop.task_queue)))
        (stop_processing _ at p o h refl))

  from_stage :
      (stage : Stage) (s : Pipeline)
      → s.stage ≡ stage
      → Fits (input_at stage) s.input_loop
      → Fits (processing_at stage) s.processing_loop
      → Fits (output_at stage) s.output_loop
      → IsServable s
      → CanStop s
  unfolding stop
  from_stage serving s at i p o h =
      by_step (stops_input at) (input_down _ refl (stop-IsLeaving s.input_loop i) p o h)
  from_stage joining_input s at i p o h = input_down s at i p o h
  from_stage joining_processing s at i p o (served, serves) =
      processing_down s.processing_loop.task_queue s
        (record { at = at; queue = refl; leaves = p; works = o; served = served; serves = serves })
  from_stage joining_output s at i p o h = output_down s.output_loop.task_queue s refl at o
  from_stage stopped s at i p o h = (s, here, at)

  -- Wherever the threads are, `stop` can be carried to its end, when the engine returns from the
  -- requests that wait for it: no thread is left waiting for another.
  pub Reach-CanStop :
      (e : Engine) (s : Pipeline) → Reach pool decode encode e s → IsServable s → CanStop s
  Reach-CanStop e s r h =
      let k = Reach-IsStaged pool decode encode e r in
      from_stage s.stage s refl k.input k.processing k.output h
