-- ===== src/Prelude/Throws.antt =====
-- A call that returns a value or throws a std::exception, with the text of its what().
use cpp_demo_build.Prelude.Tests.{Bytes}

pub data Throws {ℓ} (A : Type ℓ) : Type ℓ where
  value : A → Throws A
  threw : Bytes → Throws A

infixl 5 ◌>>=◌
abbrev pub ◌>>=◌ {ℓ κ} : {A : Type ℓ} {B : Type κ} → Throws A → (A → Throws B) → Throws B
value a >>= f = f a
threw what >>= f = threw what
