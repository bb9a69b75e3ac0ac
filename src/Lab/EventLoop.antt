-- ===== src/Lab/EventLoop.antt =====
-- src/lab/lab/event_loop.hpp: the task loop of one consumer thread. The loop bodies of the two idle
-- strategies make the same turns, so that one relation is the thread; the producers post between its
-- turns. A task is a value, and to run it is to name it.
pub mod Config
pub mod Order
pub mod Shutdown
use cpp_demo_build.Prelude.{
  Bool, true, false, Option, none, some, List, [], ◌∷◌, ◌++◌, ◌≡◌, ◌⊎◌, if◌then◌else◌,
}
use cpp_demo_build.Lab.ErrorCode.{ErrorCode, already_in_progress, generic_error}

-- `thread_`: before `start` and after `join` it is none, then it runs its loop, then `drain`. It is
-- `contended` when `start` made a second consumer and waits for the first, which had not exited: the
-- queue is for one consumer, and docs/event-loop.md asks for one start only, so that nothing is said of
-- the turns from there.
pub data Phase : Type 0 where
  no_thread looping draining exited contended : Phase

pub record Loop (A : Type 0) : Type 0 where
  pub running : Bool
  pub phase : Phase
  pub task_queue : List A

unfoldable pub make_loop : {A : Type 0} → Loop A
make_loop = record { running = false; phase = no_thread; task_queue = [] }

-- The assignment to `thread_`, which joins the thread that was there.
unfoldable pub assign_thread : Phase → Phase
assign_thread no_thread = looping
assign_thread exited = looping
assign_thread looping = contended
assign_thread draining = contended
assign_thread contended = contended

-- `start`; `created` is whether a thread can be made. The error is none where the call succeeds.
unfoldable pub start : {A : Type 0} → Bool → Loop A → Option ErrorCode × Loop A
unfolding assign_thread
start created l =
    if l.running
    then (some already_in_progress, l)
    else if created
    then (none, record l { running = true; phase = assign_thread l.phase })
    else (some generic_error, record l { running = false })

unfoldable pub post : {A : Type 0} → A → Loop A → Loop A
post task l = record l { task_queue = l.task_queue ++ task ∷ [] }

unfoldable pub stop : {A : Type 0} → Loop A → Loop A
stop l = record l { running = false }

-- `join` returns when the thread has exited, or at once when there is none.
abbrev pub CanJoin : {A : Type 0} → Loop A → Type 0
CanJoin l = (l.phase ≡ exited) ⊎ (l.phase ≡ no_thread)

unfoldable pub join : {A : Type 0} → Loop A → Loop A
join l = record l { phase = no_thread }

-- A turn of the consumer thread, with the task that it runs. A loop body takes tasks as long as there
-- are any and looks at `running_` in between; `drain` takes what is left.
pub data Turn {A : Type 0} (l : Loop A) : Option A → Loop A → Type 0 where
  take :
      {task : A} {rest : List A}
      → (l.phase ≡ looping) ⊎ (l.phase ≡ draining)
      → l.task_queue ≡ task ∷ rest
      → Turn l (some task) (record l { task_queue = rest })
  notice : l.phase ≡ looping → l.running ≡ false → Turn l none (record l { phase = draining })
  finish : l.phase ≡ draining → l.task_queue ≡ [] → Turn l none (record l { phase = exited })
