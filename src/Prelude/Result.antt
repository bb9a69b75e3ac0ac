-- ===== src/Prelude/Result.antt =====
-- `lab::result<T>` with the error payloads of the modelled components. The texts that a payload
-- carries for a human are not modelled; `BOOST_LEAF_ASSIGN` and `BOOST_LEAF_CHECK` are the bind.
use cpp_demo_build.Prelude.Tests.{Bytes}

pub data Error : Type 0 where
  invalid_argument out_of_bounds : Error
  malformed_message missing_msg_type not_connected : Error
  unsupported_message : Bytes → Error
  parser_error : Error

pub data Result {ℓ} (A : Type ℓ) : Type ℓ where
  ok : A → Result A
  err : Error → Result A

infixl 5 ◌>>=◌
abbrev pub ◌>>=◌ {ℓ κ} : {A : Type ℓ} {B : Type κ} → Result A → (A → Result B) → Result B
ok a >>= f = f a
err e >>= f = err e
