-- ===== src/Lab/EventLoop/Order.antt =====
-- The runs of a loop: what was posted to it, and what its thread ran, step by step.
use cpp_demo_build.Prelude.{Bool, none, some, List, [], ◌∷◌, ◌++◌, ◌≡◌, refl, sym, ap, ◌∙◌, arith}
use mathlib.Core.List.{append_assoc, append-nil}
use cpp_demo_build.Lab.EventLoop.{
  exited, Loop, make_loop, start, post, stop, join, CanJoin, Turn, take, notice, finish,
}

-- A loop with the tasks that were posted to it and the tasks that its thread ran.
pub record Run (A : Type 0) : Type 0 where
  pub loop : Loop A
  pub posted : List A
  pub ran : List A

pub data Step {A : Type 0} (r : Run A) : Run A → Type 0 where
  started : (created : Bool) → Step r (record r { loop = (start created r.loop).1 })
  posts : (task : A) → Step r (record r { loop = post task r.loop; posted = r.posted ++ task ∷ [] })
  stops : Step r (record r { loop = stop r.loop })
  joins : CanJoin r.loop → Step r (record r { loop = join r.loop })
  runs :
      {task : A} {l : Loop A}
      → Turn r.loop (some task) l
      → Step r (record r { loop = l; ran = r.ran ++ task ∷ [] })
  turns : {l : Loop A} → Turn r.loop none l → Step r (record r { loop = l })

pub data Reach {A : Type 0} : Run A → Type 0 where
  fresh : Reach (record { loop = make_loop; posted = []; ran = [] })
  next : {r s : Run A} → Reach r → Step r s → Reach s

-- Nothing is lost, doubled or overtaken.
abbrev InOrder : {A : Type 0} → Run A → Type 0
InOrder r = r.posted ≡ r.ran ++ r.loop.task_queue

pub Turn-some-queue :
    {A : Type 0} {l l' : Loop A} {task : A}
    → Turn l (some task) l'
    → l.task_queue ≡ task ∷ l'.task_queue
Turn-some-queue (take p e) = e

pub Turn-none-queue : {A : Type 0} {l l' : Loop A} → Turn l none l' → l'.task_queue ≡ l.task_queue
Turn-none-queue (notice p r) = refl
Turn-none-queue (finish p e) = refl

start-queue :
    {A : Type 0} (created : Bool) (l : Loop A) → (start created l).1.task_queue ≡ l.task_queue
unfolding start
start-queue created l = ground arith

Step-InOrder : {A : Type 0} {r s : Run A} → Step r s → InOrder r → InOrder s
unfolding post stop join
Step-InOrder {r = r} (started created) h =
    h ∙ ap (λ q. r.ran ++ q) (sym (start-queue created r.loop))
Step-InOrder {r = r} (posts task) h =
    ap (λ (p : List _). p ++ task ∷ []) h ∙ append_assoc r.ran r.loop.task_queue (task ∷ [])
Step-InOrder stops h = h
Step-InOrder (joins p) h = h
Step-InOrder {r = r} (runs {task = task} {l = l} t) h =
    h
    ∙ ap (λ (q : List _). r.ran ++ q) (Turn-some-queue t)
    ∙ sym (append_assoc r.ran (task ∷ []) l.task_queue)
Step-InOrder {r = r} (turns t) h = h ∙ ap (λ (q : List _). r.ran ++ q) (sym (Turn-none-queue t))

Reach-InOrder : {A : Type 0} {r : Run A} → Reach r → InOrder r
unfolding make_loop
Reach-InOrder fresh = refl
Reach-InOrder (next r s) = Step-InOrder s (Reach-InOrder r)

Turn-exited : {A : Type 0} {l l' : Loop A} → Turn l none l' → l'.phase ≡ exited → l.task_queue ≡ []
Turn-exited (notice p r) h = cc
Turn-exited (finish p e) h = e

-- Whatever the interleaving of starts, posts, stops, joins and turns of the thread: when the thread
-- exits, every task that was posted by then has run, once for each post and in the order of the posts,
-- and none waits. Posts and stops may come in any order; where two threads would consume the queue no
-- turn is made.
pub exit-ran :
    {A : Type 0} {r : Run A} {l : Loop A}
    → Reach r
    → Turn r.loop none l
    → l.phase ≡ exited
    → (r.ran ≡ r.posted) × (l.task_queue ≡ [])
exit-ran {r = r} reach t e =
    let empty = Turn-exited t e in
    (
      sym (Reach-InOrder reach ∙ ap (λ (q : List _). r.ran ++ q) empty ∙ append-nil r.ran),
      Turn-none-queue t ∙ empty,
    )
