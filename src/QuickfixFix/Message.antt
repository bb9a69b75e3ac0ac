-- ===== src/QuickfixFix/Message.antt =====
-- src/quickfix_fix/{quickfix_fix/message.hpp,src/session.cpp}: FIX messages as fields in the order of
-- their first `set`.
use cpp_demo_build.Prelude.{
  ℕ, ◌≡◌, refl, Option, none, some, List, [], ◌∷◌, Bytes, ◌==◌, if◌then◌else◌, arith,
}

abbrev pub Tag : Type 0
Tag = ℕ

pub record Field : Type 0 where
  pub number : Tag
  pub value : Bytes

pub record Message : Type 0 where
  pub msg_type : Bytes
  pub fields : List Field

unfoldable pub set_fields : Tag → Bytes → List Field → List Field
set_fields number value [] = record { number = number; value = value } ∷ []
set_fields number value (f ∷ fs) =
    if f.number == number then record f { value = value } ∷ fs else f ∷ set_fields number value fs

unfoldable pub get_fields : Tag → List Field → Option Bytes
get_fields number [] = none
get_fields number (f ∷ fs) = if f.number == number then some f.value else get_fields number fs

-- `message{msg_type}`
abbrev pub new_message : Bytes → Message
new_message msg_type = record { msg_type = msg_type; fields = [] }

unfoldable pub set : Message → Tag → Bytes → Message
unfolding set_fields
set m number value = record m { fields = set_fields number value m.fields }

unfoldable pub get : Message → Tag → Option Bytes
unfolding get_fields
get m number = get_fields number m.fields

get_fields-set_fields :
    (n k : Tag) (v : Bytes) (fs : List Field)
    → get_fields k (set_fields n v fs) ≡ (if n == k then some v else get_fields k fs)
unfolding get_fields set_fields
get_fields-set_fields n k v [] = refl
get_fields-set_fields n k v (f ∷ fs) = ground (arith, get_fields-set_fields n k v fs)

-- `get` after `set` sees the new value at that tag, and the old fields elsewhere.
pub get-set :
    (m : Message) (n k : Tag) (v : Bytes) → get (set m n v) k ≡ (if n == k then some v else get m k)
unfolding get set
get-set m n k v = get_fields-set_fields n k v m.fields
