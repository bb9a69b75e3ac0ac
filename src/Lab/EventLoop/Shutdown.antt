-- ===== src/Lab/EventLoop/Shutdown.antt =====
-- The turns of a loop that was stopped, with no post between them.
use cpp_demo_build.Prelude.{
  ℕ, zero, suc, ◌+◌, Option, none, some, List, [], ◌∷◌, ◌++◌, ◌≡◌, refl, ap, ◌∙◌, length, arith,
  sym, false, inl, inr, ◌⊎◌,
}
use mathlib.Core.List.{append-nil}
use cpp_demo_build.Lab.EventLoop.{
  Phase, no_thread, looping, draining, exited, contended, Loop, Turn, take, notice, finish,
}

abbrev phase_turns : Phase → ℕ
phase_turns no_thread = 0
phase_turns looping = 2
phase_turns draining = 1
phase_turns exited = 0
phase_turns contended = 0

-- The turns that are left.
abbrev pub turns_left : {A : Type 0} → Loop A → ℕ
turns_left l = length l.task_queue + phase_turns l.phase

-- A sequence of turns, with their number and the tasks that they run.
pub data Turns {A : Type 0} : ℕ → Loop A → List A → Loop A → Type 0 where
  none_made : (l : Loop A) → Turns zero l [] l
  runs :
      {n : ℕ} {l m k : Loop A} {task : A} {ran : List A}
      → Turn l (some task) m
      → Turns n m ran k
      → Turns (suc n) l (task ∷ ran) k
  turns :
      {n : ℕ} {l m k : Loop A} {ran : List A}
      → Turn l none m
      → Turns n m ran k
      → Turns (suc n) l ran k

-- The thread is in its loop or drains, and its loop was stopped.
abbrev pub IsStopping : {A : Type 0} → Loop A → Type 0
IsStopping l = (l.running ≡ false) × ((l.phase ≡ looping) ⊎ (l.phase ≡ draining))

Turn-left :
    {A : Type 0} {l m : Loop A} {ran : Option A} → Turn l ran m → turns_left l ≡ suc (turns_left m)
Turn-left (take p e) = omega (arith, ap length e)
Turn-left {l = l} (notice p r) = omega (arith, ap phase_turns p)
Turn-left (finish p e) = omega (arith, ap length e, ap phase_turns p)

Turns-left :
    {A : Type 0} {n : ℕ} {l k : Loop A} {ran : List A}
    → Turns n l ran k
    → turns_left l ≡ n + turns_left k
Turns-left (none_made l) = omega arith
Turns-left (runs t ts) = omega (arith, Turn-left t, Turns-left ts)
Turns-left (turns t ts) = omega (arith, Turn-left t, Turns-left ts)

Turns-queue :
    {A : Type 0} {n : ℕ} {l k : Loop A} {ran : List A}
    → Turns n l ran k
    → l.task_queue ≡ ran ++ k.task_queue
Turns-queue (none_made l) = refl
Turns-queue (runs (take {task = task} p e) ts) = e ∙ ap (λ (q : List _). task ∷ q) (Turns-queue ts)
Turns-queue (turns (notice p r) ts) = Turns-queue ts
Turns-queue (turns (finish p e) ts) = Turns-queue ts

-- Another turn can be made until the thread has exited.
turn_of :
    {A : Type 0} (l : Loop A) (q : List A)
    → l.task_queue ≡ q
    → IsStopping l
    → (ran : Option A) × (m : Loop A) × Turn l ran m
turn_of l (task ∷ q) e (r, p) = (some task, _, take p e)
turn_of l [] e (r, inl p) = (none, _, notice p r)
turn_of l [] e (r, inr p) = (none, _, finish p e)

abbrev pub IsLeaving : {A : Type 0} → Loop A → Type 0
IsLeaving l = IsStopping l ⊎ (l.phase ≡ exited)

pub Turn-IsLeaving :
    {A : Type 0} {l m : Loop A} {ran : Option A} → IsStopping l → Turn l ran m → IsLeaving m
Turn-IsLeaving (r, p) (take q e) = inl (r, p)
Turn-IsLeaving (r, p) (notice q s) = inl (r, inr refl)
Turn-IsLeaving (r, p) (finish q e) = inr refl

pub exited_stays :
    {A : Type 0} {l m : Loop A} {ran : Option A} → l.phase ≡ exited → Turn l ran m → ⊥
exited_stays h (take (inl p) e) = cc
exited_stays h (take (inr p) e) = cc
exited_stays h (notice p r) = cc
exited_stays h (finish p e) = cc

Turns-IsLeaving :
    {A : Type 0} {n : ℕ} {l k : Loop A} {ran : List A} → Turns n l ran k → IsLeaving l → IsLeaving k
Turns-IsLeaving (none_made l) h = h
Turns-IsLeaving (runs t ts) (inl s) = Turns-IsLeaving ts (Turn-IsLeaving s t)
Turns-IsLeaving (runs t ts) (inr x) = absurd (exited_stays x t)
Turns-IsLeaving (turns t ts) (inl s) = Turns-IsLeaving ts (Turn-IsLeaving s t)
Turns-IsLeaving (turns t ts) (inr x) = absurd (exited_stays x t)

-- A stopping thread exits with an empty queue.
Turns-emptied :
    {A : Type 0} {n : ℕ} {l k : Loop A} {ran : List A}
    → IsStopping l
    → Turns n l ran k
    → k.phase ≡ exited
    → k.task_queue ≡ []
Turns-emptied (r, inl p) (none_made l) x = absurd (cc)
Turns-emptied (r, inr p) (none_made l) x = absurd (cc)
Turns-emptied (r, p) (runs (take q e) ts) x = Turns-emptied (r, p) ts x
Turns-emptied (r, p) (turns (notice q e) ts) x = Turns-emptied (r, inr refl) ts x
Turns-emptied (r, p) (turns (finish q e) (none_made l)) x = e
Turns-emptied (r, p) (turns (finish q e) (runs t ts)) x = absurd (exited_stays refl t)
Turns-emptied (r, p) (turns (finish q e) (turns t ts)) x = absurd (exited_stays refl t)

-- The thread has exited, after all its tasks, with an empty queue, in the turns that were left at `l`.
abbrev pub HasExited : {A : Type 0} → Loop A → ℕ → List A → Loop A → Type 0
HasExited l n ran k =
    (k.phase ≡ exited) × (k.task_queue ≡ []) × (ran ≡ l.task_queue) × (n ≡ turns_left l)

-- A loop that was stopped, and to which nobody posts, makes turns. They run a front of its queue, and
-- make up with the turns that are left the turns that were left at the stop: those of the queue, and
-- one or two to leave. Either the thread has then exited, with an empty queue, after all the tasks that
-- waited and in exactly those turns, or it has another turn.
pub Turns-end :
    {A : Type 0} (l : Loop A) {n : ℕ} {ran : List A} {k : Loop A}
    → IsStopping l
    → Turns n l ran k
    → (l.task_queue ≡ ran ++ k.task_queue)
      × (turns_left l ≡ n + turns_left k)
      × (HasExited l n ran k ⊎ ((task : Option A) × (m : Loop A) × Turn k task m))
Turns-end l {n = n} {ran = ran} {k = k} h ts =
    (Turns-queue ts, Turns-left ts, further (Turns-IsLeaving ts (inl h)))
  where
    further : IsLeaving k → HasExited l n ran k ⊎ ((task : Option _) × (m : Loop _) × Turn k task m)
    further (inl s) = inr (turn_of k k.task_queue refl s)
    further (inr x) =
        let empty = Turns-emptied h ts x in
        inl (
          x,
          empty,
          sym (Turns-queue ts ∙ ap (λ (q : List _). ran ++ q) empty ∙ append-nil ran),
          omega (arith, Turns-left ts, ap length empty, ap phase_turns x),
        )
