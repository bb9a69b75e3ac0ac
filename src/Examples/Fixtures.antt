-- ===== src/Examples/Fixtures.antt =====
-- A concrete pool, a concrete decimal printer, and orders of one symbol.
use cpp_demo_build.Prelude.{
  ℕ, suc, zero, ◌+◌, ◌-◌, ◌*◌, ◌/◌, ◌%◌, ◌<◌, ◌≡◌, ◌≢◌, refl, some, List, [], ◌∷◌, ◌++◌, arith, All,
  All-append, Bytes, codes, ltb, if◌then◌else◌, subst, Bool-cases, inl, inr,
}
use mathlib.Core.Option.{some-injective}
use mathlib.Core.List.{cons-ne-nil}
use cpp_demo_build.Lab.Charconv.{Fmt, IsDigit, decimal}
use cpp_demo_build.OrderEntry.Types.{Side, Symbol, Price, Quantity, OrdType, TimeInForce}
use cpp_demo_build.OrderEntry.Messages.{NewOrderSingle}
use cpp_demo_build.MatchingEngine.Types.{Address}
use cpp_demo_build.MatchingEngine.Engine.{Pool}

abbrev total : List Address → ℕ
total [] = 0
total (a ∷ rest) = a + total rest

pub above : (k : ℕ) (rest : List Address) → total rest < k → All (λ b. b ≢ k) rest
above k [] h = tt
above k (a ∷ rest) h = (λ e. absurd (omega arith), above k rest (omega arith))

-- A pool that never runs out: it hands out a slot above all others.
abbrev pub endless_pool : Pool
endless_pool = record {
  malloc = λ live. some (suc (total live));
  malloc_fresh = λ live a e.
      subst (λ k. All (λ b. b ≢ k) live) (some-injective _ _ e)
        (above (suc (total live)) live (omega arith));
}

-- Decimal digits, with fuel above the number.
abbrev digits : ℕ → ℕ → Bytes
digits zero n = []
digits (suc fuel) n =
    let rest = digits fuel (n / 10) in
    if ltb n 10 then (n + b'0') ∷ [] else rest ++ (n % 10 + b'0') ∷ []

decimal-snoc : (m : ℕ) (s : Bytes) (c : ℕ) → decimal m (s ++ c ∷ []) ≡ decimal m s * 10 + (c - b'0')
decimal-snoc m [] c = refl
decimal-snoc m (d ∷ s) c = decimal-snoc (m * 10 + (d - b'0')) s c

pub decimal-digits : (fuel n : ℕ) → n < fuel → decimal 0 (digits fuel n) ≡ n
decimal-digits zero n h = absurd (omega arith)
decimal-digits (suc fuel) n h =
    ground
      (arith, decimal-snoc 0 (digits fuel (n / 10)) (n % 10 + b'0'), decimal-digits fuel (n / 10))

pub digits-IsDigit : (fuel n : ℕ) → All IsDigit (digits fuel n)
digits-IsDigit zero n = tt
digits-IsDigit (suc fuel) n = elim (Bool-cases (ltb n 10)) [
  | inl e ↦ rw e ((omega arith, ground arith), tt)
  | inr e ↦ rw e (
      All-append IsDigit (digits fuel (n / 10)) ((n % 10 + b'0') ∷ [])
        (digits-IsDigit fuel (n / 10)) ((omega arith, omega arith), tt))
]

snoc-ne_nil : (s : Bytes) (c : ℕ) → s ++ c ∷ [] ≢ []
snoc-ne_nil [] c = cons-ne-nil c []
snoc-ne_nil (d ∷ s) c = cons-ne-nil d (s ++ c ∷ [])

pub digits-ne_nil : (fuel n : ℕ) → digits (suc fuel) n ≢ []
digits-ne_nil fuel n = elim (Bool-cases (ltb n 10)) [
  | inl e ↦ rw e (cons-ne-nil (n + b'0') [])
  | inr e ↦ rw e (snoc-ne_nil (digits fuel (n / 10)) (n % 10 + b'0'))
]

abbrev pub decimal_fmt : Fmt
decimal_fmt = record {
  format_uint = λ n. digits (suc n) n;
  format_uint_digits = λ n. digits-IsDigit (suc n) n;
  format_uint_value = λ n. decimal-digits (suc n) n (omega arith);
  format_uint_some = λ n. digits-ne_nil n n;
  format_text = λ s. s;
  format_text_same = λ s. refl;
}

abbrev pub petr : Symbol
petr = codes "PETR4"

-- A limit order of client 7.
abbrev pub limit_order : ℕ → Side → Quantity → Price → NewOrderSingle
limit_order cl_ord_id side order_qty price = record {
  client_id = 7;
  cl_ord_id = cl_ord_id;
  security_id = 1;
  symbol = petr;
  security_exchange = codes "BVMF";
  side = side;
  ord_type = OrdType.limit;
  time_in_force = TimeInForce.day;
  order_qty = order_qty;
  price = price;
}
