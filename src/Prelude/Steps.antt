-- ===== src/Prelude/Steps.antt =====
-- `lab::result<void>` of calls that change a state: the error is none where the call succeeds, and a
-- call that fails (`LAB_LEAF_CHECK`) leaves out the calls after it.
use mathlib.Core.Option.{Option, none, some}

infixl 5 ◌>>◌
abbrev pub ◌>>◌ {ℓ κ} : {E : Type ℓ} {S : Type κ} → Option E × S → (S → Option E × S) → Option E × S
(some error, s) >> next = (some error, s)
(none, s) >> next = next s
