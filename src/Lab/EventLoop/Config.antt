-- ===== src/Lab/EventLoop/Config.antt =====
-- src/lab/lab/event_loop.hpp: the configuration of a loop and its JSON. A duration is a number of
-- microseconds below 2 ^ 63.
use cpp_demo_build.Prelude.{
  ℕ, ◌<◌, ◌≡◌, ◌^◌, refl, arith, [], ◌∷◌, ◌++◌, Bytes, codes, u64_mod, eqb, if◌then◌else◌,
}
use cpp_demo_build.Prelude.Throws.{Throws, value, threw, ◌>>=◌}
use cpp_demo_build.Lab.Json.{Json}
use cpp_demo_build.Lab.Json.Fields.{
  read_field, read_field_or, read_type, read_field-object, read_field_or-object, read_type-object,
}

pub data IdleStrategy : Type 0 where
  timed_wait_idle : ℕ → IdleStrategy
  busy_spin_idle : IdleStrategy

pub record EventLoopConfig : Type 0 where
  pub thread_name : Bytes
  pub queue_capacity : ℕ
  pub idle_strategy : IdleStrategy

-- What the member initializers give to a configuration.
abbrev pub default_config : Bytes → EventLoopConfig
default_config thread_name = record {
  thread_name = thread_name;
  queue_capacity = 1024;
  idle_strategy = timed_wait_idle 1000;
}

module _ (j : Json) where
  unfoldable pub idle_to_json : IdleStrategy → j.Value
  idle_to_json (timed_wait_idle duration) = j.object (
      (codes "type", j.of_string (codes "timed_wait"))
      ∷ (codes "duration_microseconds", j.of_number duration)
      ∷ [])
  idle_to_json busy_spin_idle = j.object ((codes "type", j.of_string (codes "busy_spin")) ∷ [])

  unfoldable pub timed_wait_from_json : j.Value → Throws IdleStrategy
  timed_wait_from_json json_object = do
    duration ← read_field j j.get_number json_object (codes "duration_microseconds")
    value (timed_wait_idle duration)

  unfoldable pub idle_of_type : j.Value → Bytes → Throws IdleStrategy
  unfolding eqb
  idle_of_type json_object type =
      if eqb type (codes "busy_spin")
      then value busy_spin_idle
      else if eqb type (codes "timed_wait")
      then timed_wait_from_json json_object
      else threw (codes "unknown event-loop idle strategy '" ++ type ++ codes "'")

  unfoldable pub idle_from_json : j.Value → Throws IdleStrategy
  idle_from_json json_object = read_type j json_object >>= idle_of_type json_object

  unfoldable pub to_json : EventLoopConfig → j.Value
  to_json c = j.object (
      (codes "thread_name", j.of_string c.thread_name)
      ∷ (codes "queue_capacity", j.of_number c.queue_capacity)
      ∷ (codes "idle_strategy", idle_to_json c.idle_strategy)
      ∷ [])

  unfoldable pub from_json : j.Value → Throws EventLoopConfig
  from_json json_object = do
    thread_name ← read_field j j.get_string json_object (codes "thread_name")
    queue_capacity ←
        read_field_or j j.get_number json_object (codes "queue_capacity")
          (default_config []).queue_capacity
    idle_strategy ←
        read_field_or j idle_from_json json_object (codes "idle_strategy")
          (default_config []).idle_strategy
    value (record {
      thread_name = thread_name;
      queue_capacity = queue_capacity;
      idle_strategy = idle_strategy;
    })

  abbrev pub FitsIdle : IdleStrategy → Type 0
  FitsIdle (timed_wait_idle duration) = duration < 2 ^ 63
  FitsIdle busy_spin_idle = Unit {0}

  idle_from_json-idle_to_json :
      (s : IdleStrategy) → FitsIdle s → idle_from_json (idle_to_json s) ≡ value s
  unfolding idle_from_json idle_to_json idle_of_type timed_wait_from_json eqb
  idle_from_json-idle_to_json busy_spin_idle h =
      rw (read_type-object j _ (codes "busy_spin") refl) refl
  idle_from_json-idle_to_json (timed_wait_idle duration) h =
      rw
        (
          read_type-object j _ (codes "timed_wait") refl,
          read_field-object j j.get_number _ (codes "duration_microseconds") (j.of_number duration)
              duration refl (j.get_number-of_number duration (omega arith)),
        )
        refl

  -- The configuration of a loop is read back from its JSON.
  pub loop_from_json-to_json :
      (c : EventLoopConfig)
      → c.queue_capacity < u64_mod
      → FitsIdle c.idle_strategy
      → from_json (to_json c) ≡ value c
  unfolding from_json to_json eqb
  loop_from_json-to_json c capacity idle =
      rw
        (
          read_field-object j j.get_string _ (codes "thread_name") (j.of_string c.thread_name)
              c.thread_name refl (j.get_string-of_string c.thread_name),
          read_field_or-object j j.get_number _ (codes "queue_capacity")
              (j.of_number c.queue_capacity) c.queue_capacity _ refl
              (j.get_number-of_number c.queue_capacity capacity),
          read_field_or-object j idle_from_json _ (codes "idle_strategy")
              (idle_to_json c.idle_strategy) c.idle_strategy _ refl
              (idle_from_json-idle_to_json c.idle_strategy idle),
        )
        refl
