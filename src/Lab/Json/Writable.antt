-- ===== src/Lab/Json/Writable.antt =====
-- Documents that are written and read back: objects of ASCII texts and numbers.
use cpp_demo_build.Prelude.{ℕ, List, [], ◌∷◌, Bytes, All}
use cpp_demo_build.Lab.Json.{Json, IsAscii}

pub record IsField (j : Json) (f : Bytes × j.Value) : Type 0 where
  pub name_ascii : IsAscii f.0
  pub writable : j.IsWritable f.1

infixr 40 ◌&◌
pub data AreFields (j : Json) : List (Bytes × j.Value) → Type 0 where
  nil : AreFields j []
  ◌&◌ :
      {f : Bytes × j.Value} {fs : List (Bytes × j.Value)}
      → IsField j f
      → AreFields j fs
      → AreFields j (f ∷ fs)

module _ (j : Json) where
  pub literal : (key s : Bytes) → IsAscii key → IsAscii s → IsField j (key, j.of_string s)
  literal key s k h = record { name_ascii = k; writable = j.string_writable s h }

  pub number : (key : Bytes) (n : ℕ) → IsAscii key → IsField j (key, j.of_number n)
  number key n k = record { name_ascii = k; writable = j.number_writable n }

  All-AreFields :
      {fs : List (Bytes × j.Value)}
      → AreFields j fs
      → All (λ (f : Bytes × j.Value). IsAscii f.0 × j.IsWritable f.1) fs
  All-AreFields nil = tt
  All-AreFields (p & ps) = ((p.name_ascii, p.writable), All-AreFields ps)

  pub object-IsWritable :
      (fs : List (Bytes × j.Value)) → AreFields j fs → j.IsWritable (j.object fs)
  object-IsWritable fs h = j.object_writable fs (All-AreFields h)
