-- ===== src/MatchingEngine/Outcome.antt =====
-- How a call can end: with a value, or with the end of the run. `assertion_failed` is a failed
-- LAB_ASSERT, `front_of_empty` the undefined `front()` of an empty list, and `bad_alloc` the
-- exception that `engine::allocate_node` throws and that no handler of the engine catches. A read
-- through an index entry whose node is linked nowhere is `dangling`.
use cpp_demo_build.Prelude.{Option, none, some}

pub data Fault : Type 0 where
  assertion_failed front_of_empty dangling bad_alloc : Fault

pub data Outcome {ℓ} (A : Type ℓ) : Type ℓ where
  done : A → Outcome A
  fault : Fault → Outcome A

infixl 5 ◌>>=◌
abbrev pub ◌>>=◌ {ℓ κ} : {A : Type ℓ} {B : Type κ} → Outcome A → (A → Outcome B) → Outcome B
done a >>= f = f a
fault e >>= f = fault e

abbrev pub or_fault {ℓ} : {A : Type ℓ} → Option A → Fault → Outcome A
or_fault none e = fault e
or_fault (some a) e = done a

-- Only the pool ends a run.
abbrev pub IsAllowed : Fault → Type 0
IsAllowed bad_alloc = Unit {0}
IsAllowed assertion_failed = ⊥
IsAllowed front_of_empty = ⊥
IsAllowed dangling = ⊥

-- The call returns a value that satisfies `P`, or the pool is out of memory.
abbrev pub Ends : {A : Type 0} → (A → Type 0) → Outcome A → Type 0
Ends P (done a) = P a
Ends P (fault e) = IsAllowed e

pub Ends-bind :
    {A B : Type 0} (P : A → Type 0) (Q : B → Type 0) (o : Outcome A) (f : A → Outcome B)
    → Ends P o
    → ((a : A) → P a → Ends Q (f a))
    → Ends Q (o >>= f)
Ends-bind P Q (done a) f h k = k a h
Ends-bind P Q (fault e) f h k = h

-- A value that the call returns satisfies `P`.
abbrev pub IfDone : {A : Type 0} → (A → Type 0) → Outcome A → Type 0
IfDone P (done a) = P a
IfDone P (fault e) = Unit {0}

pub IfDone-bind :
    {A B : Type 0} (P : A → Type 0) (Q : B → Type 0) (o : Outcome A) (f : A → Outcome B)
    → IfDone P o
    → ((a : A) → P a → IfDone Q (f a))
    → IfDone Q (o >>= f)
IfDone-bind P Q (done a) f h k = k a h
IfDone-bind P Q (fault e) f h k = tt

-- Of a value of which nothing is known.
pub IfDone-bind_any :
    {A B : Type 0} (Q : B → Type 0) (o : Outcome A) (f : A → Outcome B)
    → ((a : A) → IfDone Q (f a))
    → IfDone Q (o >>= f)
IfDone-bind_any Q (done a) f k = k a
IfDone-bind_any Q (fault e) f k = tt

pub Ends-IfDone : {A : Type 0} (P Q : A → Type 0) (o : Outcome A) → Ends P o → IfDone Q o → Ends Q o
Ends-IfDone P Q (done a) h k = k
Ends-IfDone P Q (fault e) h k = h
