-- ===== src/QuickfixFix/Codec.antt =====
-- src/quickfix_fix/src/codec.cpp: FIX messages as text.
pub mod Distinct
pub mod RoundTrip
use cpp_demo_build.Prelude.{
  ℕ, Option, none, some, List, [], ◌∷◌, ◌++◌, Bytes, ◌==◌, if◌then◌else◌, is_empty,
}
use cpp_demo_build.Prelude.Result.{Result, ok, err, malformed_message, missing_msg_type, ◌>>=◌}
use cpp_demo_build.Lab.Charconv.{Fmt, from_chars}
use cpp_demo_build.QuickfixFix.Message.{Tag, Field, Message, new_message, set}

abbrev pub msg_type_tag : Tag
msg_type_tag = 35

-- `tag` is `std::uint16_t`.
abbrev pub tag_mod : ℕ
tag_mod = 65536

module _ (fmt : Fmt) (delimiter : ℕ) where
  -- `fmt::format("{}={}{}", number, value, delimiter)`
  unfoldable pub encode_field : Tag → Bytes → Bytes
  encode_field number value =
      (fmt.format_uint number ++ b'=' ∷ fmt.format_text value) ++ delimiter ∷ []

  unfoldable pub encode_fields : List Field → Bytes
  encode_fields [] = []
  encode_fields (f ∷ fs) = encode_field f.number f.value ++ encode_fields fs

  unfoldable pub encode : Message → Bytes
  encode m = encode_field msg_type_tag m.msg_type ++ encode_fields m.fields

-- What stands before the first `=` and after it, if there is one.
unfoldable pub cut_at_equals : Bytes → Option (Bytes × Bytes)
cut_at_equals [] = none
cut_at_equals (c ∷ s) =
    let rest = cut_at_equals s in
    if c == b'='
    then some ([], s)
    else elim rest [ none ↦ none | some (before, after) ↦ some (c ∷ before, after) ]

-- The message type and the message that `decode` fills.
pub record Decoding : Type 0 where
  pub msg_type : Bytes
  pub output : Message

-- The message type has a field of its own.
unfoldable pub store : Decoding → Tag → Bytes → Decoding
store d number value =
    if number == msg_type_tag
    then record d { msg_type = value }
    else record d { output = set d.output number value }

unfoldable pub decode_field : Decoding → Bytes → Result Decoding
decode_field d field = elim (cut_at_equals field) [
  | none ↦ err malformed_message
  | some ([], value) ↦ err malformed_message
  | some (c ∷ s, value) ↦ (do number ← from_chars tag_mod (c ∷ s); ok (store d number value))
]

-- A character in front of the first field.
unfoldable pub glue : ℕ → List Bytes → List Bytes
glue c [] = (c ∷ []) ∷ []
glue c (f ∷ fs) = (c ∷ f) ∷ fs

-- The values that `field` takes in the loop over the payload: what stands between delimiters, and the
-- rest behind the last one if it is not empty.
unfoldable pub fields_of : ℕ → Bytes → List Bytes
fields_of delimiter [] = []
fields_of delimiter (c ∷ s) =
    let rest = fields_of delimiter s in if c == delimiter then [] ∷ rest else glue c rest

-- The body of the loop, for each field in turn: an empty field is passed over.
unfoldable pub decode_fields : Decoding → List Bytes → Result Decoding
decode_fields d [] = ok d
decode_fields d ([] ∷ fs) = decode_fields d fs
decode_fields d ((c ∷ s) ∷ fs) = do d' ← decode_field d (c ∷ s); decode_fields d' fs

unfoldable pub set_all : Message → List Field → Message
set_all m [] = m
set_all m (f ∷ fs) = set_all (set m f.number f.value) fs

unfoldable pub typed : Decoding → Result Message
typed d =
    if is_empty d.msg_type
    then err missing_msg_type
    else ok (set_all (new_message d.msg_type) d.output.fields)

unfoldable pub decode : ℕ → Bytes → Result Message
decode delimiter payload = do
  d ←
      decode_fields (record { msg_type = []; output = new_message [] })
        (fields_of delimiter payload)
  typed d
