-- ===== src/Morfix/Session.antt =====
-- src/morfix/{morfix/session.hpp,src/session.cpp}: what a FIX session remembers.
use cpp_demo_build.Prelude.{
  ℕ, zero, suc, ◌+◌, ◌%◌, ◌≡◌, refl, Bool, false, Option, none, some, List, [], ◌∷◌, ◌==◌,
  if◌then◌else◌, add64, u64_mod, arith,
}
use cpp_demo_build.OrderEntry.Types.{ClOrdId, ExecId}
use cpp_demo_build.Mor.Messages as mor

pub record LifecycleState : Type 0 where
  pub next_exec_id_value : ℕ
  pub requests_by_cl_ord_id : List (ClOrdId × mor.Request)

abbrev pub new_lifecycle : LifecycleState
new_lifecycle = record { next_exec_id_value = 1; requests_by_cl_ord_id = [] }

unfoldable pub next_exec_id : LifecycleState → ExecId × LifecycleState
next_exec_id s =
    (s.next_exec_id_value, record s { next_exec_id_value = add64 s.next_exec_id_value 1 })

-- `requests_by_cl_ord_id_[key] = request`
unfoldable pub assign :
    ClOrdId → mor.Request → List (ClOrdId × mor.Request) → List (ClOrdId × mor.Request)
assign key request [] = (key, request) ∷ []
assign key request ((k, r) ∷ rest) =
    if k == key then (k, request) ∷ rest else (k, r) ∷ assign key request rest

unfoldable pub find_request : ClOrdId → List (ClOrdId × mor.Request) → Option mor.Request
find_request key [] = none
find_request key ((k, r) ∷ rest) = if k == key then some r else find_request key rest

remember_as : ClOrdId → mor.Request → LifecycleState → LifecycleState
remember_as key request s = record s {
  requests_by_cl_ord_id = assign key request s.requests_by_cl_ord_id;
}

unfoldable pub remember : LifecycleState → mor.Request → LifecycleState
unfolding remember_as
remember s (mor.Request.new_order_single order) =
    remember_as order.cl_ord_id (mor.Request.new_order_single order) s
remember s (mor.Request.replace_request replace) =
    remember_as replace.cl_ord_id (mor.Request.replace_request replace) s
remember s (mor.Request.cancel_request cancel) =
    remember_as cancel.cl_ord_id (mor.Request.cancel_request cancel) s
remember s mor.Request.flush_request = s

unfoldable pub find : LifecycleState → ClOrdId → Option mor.Request
find s key = find_request key s.requests_by_cl_ord_id

find_request-assign :
    (key k : ClOrdId) (r : mor.Request) (rs : List (ClOrdId × mor.Request))
    → find_request k (assign key r rs) ≡ (if key == k then some r else find_request k rs)
unfolding find_request assign
find_request-assign key k r [] = refl
find_request-assign key k r ((j, q) ∷ rest) = ground (arith, find_request-assign key k r rest)

-- Whether a request has the identity: a flush has none.
abbrev pub has_cl_ord_id : ClOrdId → mor.Request → Bool
has_cl_ord_id key (mor.Request.new_order_single order) = order.cl_ord_id == key
has_cl_ord_id key (mor.Request.replace_request replace) = replace.cl_ord_id == key
has_cl_ord_id key (mor.Request.cancel_request cancel) = cancel.cl_ord_id == key
has_cl_ord_id key mor.Request.flush_request = false

-- After `remember`, `find` sees the request under its own identity, whatever was there, and what it
-- saw before under every other; remembering a flush changes nothing that `find` sees.
pub find-remember :
    (s : LifecycleState) (r : mor.Request) (key : ClOrdId)
    → find (remember s r) key ≡ (if has_cl_ord_id key r then some r else find s key)
unfolding find remember remember_as
find-remember s (mor.Request.new_order_single order) key =
    find_request-assign order.cl_ord_id key _ s.requests_by_cl_ord_id
find-remember s (mor.Request.replace_request replace) key =
    find_request-assign replace.cl_ord_id key _ s.requests_by_cl_ord_id
find-remember s (mor.Request.cancel_request cancel) key =
    find_request-assign cancel.cl_ord_id key _ s.requests_by_cl_ord_id
find-remember s mor.Request.flush_request key = refl

-- The session after a number of calls of `next_exec_id`.
abbrev pub after_calls : ℕ → LifecycleState → LifecycleState
after_calls zero s = s
after_calls (suc n) s = (next_exec_id (after_calls n s)).1

-- The identity that a new session gives at a call, counting from zero, is one more than the number
-- of calls before it, modulo 2 ^ 64.
pub next_exec_id-after_calls :
    (n : ℕ) → (next_exec_id (after_calls n new_lifecycle)).0 ≡ (1 + n) % u64_mod
unfolding next_exec_id add64
next_exec_id-after_calls zero = refl
next_exec_id-after_calls (suc n) = omega (arith, next_exec_id-after_calls n)
