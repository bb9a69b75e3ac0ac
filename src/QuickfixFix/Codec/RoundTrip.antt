-- ===== src/QuickfixFix/Codec/RoundTrip.antt =====
-- The codec reads back what it writes.
use cpp_demo_build.Prelude.{
  ℕ, ◌<◌, ◌≡◌, ◌≢◌, refl, some, List, [], ◌∷◌, ◌++◌, Bytes, All, All-append, All-imp, arith, ap,
  ◌∙◌, sym, subst,
}
use mathlib.Core.List.{cons-ne-nil}
use cpp_demo_build.Prelude.Result.{Result, ok, ◌>>=◌}
use cpp_demo_build.Lab.Charconv.{Fmt, IsDigit, from_chars, from_chars-format_uint}
use cpp_demo_build.QuickfixFix.Message.{Tag, Field, Message, new_message, set}
use cpp_demo_build.QuickfixFix.Codec.Distinct.{IsDistinct, typed-set_all}
use cpp_demo_build.QuickfixFix.Codec.{
  encode_field, encode_fields, encode, cut_at_equals, Decoding, decode_field, glue, fields_of,
  decode_fields, store, set_all, typed, decode, msg_type_tag, tag_mod,
}

-- Free of a delimiter.
abbrev pub Free : ℕ → Bytes → Type 0
Free delimiter s = All (λ c. c ≢ delimiter) s

abbrev pub IsWireField : ℕ → Field → Type 0
IsWireField delimiter f = (f.number < tag_mod) × (f.number ≢ msg_type_tag) × Free delimiter f.value

-- A message that can be written with the delimiter.
pub record IsWireMessage (delimiter : ℕ) (m : Message) : Type 0 where
  pub has_type : m.msg_type ≢ []
  pub type_free : Free delimiter m.msg_type
  pub fields_fit : All (IsWireField delimiter) m.fields
  pub distinct : IsDistinct m.fields

fields_of-segment :
    (delimiter : ℕ) (f rest : Bytes)
    → Free delimiter f
    → fields_of delimiter ((f ++ delimiter ∷ []) ++ rest) ≡ f ∷ fields_of delimiter rest
unfolding fields_of glue
fields_of-segment delimiter [] rest h = ground arith
fields_of-segment delimiter (c ∷ f) rest h =
    ground (arith, h.0, fields_of-segment delimiter f rest h.1)

cut_at_equals-digits : (s v : Bytes) → All IsDigit s → cut_at_equals (s ++ b'=' ∷ v) ≡ some (s, v)
unfolding cut_at_equals
cut_at_equals-digits [] v h = refl
cut_at_equals-digits (c ∷ s) v h = ground (arith, cut_at_equals-digits s v h.1)

module _ (fmt : Fmt) (delimiter : ℕ) (not_digit : ¬ IsDigit delimiter)
    (not_equals : b'=' ≢ delimiter) where
  segment : Tag → Bytes → Bytes
  segment n v = fmt.format_uint n ++ b'=' ∷ v

  segment-Free : (n : Tag) (v : Bytes) → Free delimiter v → Free delimiter (segment n v)
  unfolding segment
  segment-Free n v h =
      All-append (λ c. c ≢ delimiter) (fmt.format_uint n) (b'=' ∷ v)
        (All-imp IsDigit (λ c. c ≢ delimiter) (λ c d e. not_digit (subst IsDigit e d))
          (fmt.format_uint n) (fmt.format_uint_digits n))
        (not_equals, h)

  segment-ne_nil : (n : Tag) (v : Bytes) → segment n v ≢ []
  unfolding segment
  segment-ne_nil n v = front (fmt.format_uint n)
    where
      front : (s : Bytes) → s ++ b'=' ∷ v ≢ []
      front [] = cons-ne-nil b'=' v
      front (c ∷ s) = cons-ne-nil c (s ++ b'=' ∷ v)

  decode_field-segment :
      (d : Decoding) (n : Tag) (v : Bytes)
      → n < tag_mod
      → decode_field d (segment n v) ≡ ok (store d n v)
  unfolding segment decode_field
  decode_field-segment d n v h = printed (fmt.format_uint n) refl
    where
      printed :
          (s : Bytes)
          → fmt.format_uint n ≡ s
          → decode_field d (fmt.format_uint n ++ b'=' ∷ v) ≡ ok (store d n v)
      printed [] e = absurd (fmt.format_uint_some n e)
      printed (c ∷ s) e =
          subst (λ u. decode_field d (u ++ b'=' ∷ v) ≡ ok (store d n v)) (sym e)
            (rw
              (
                cut_at_equals-digits (c ∷ s) v (subst (All IsDigit) e (fmt.format_uint_digits n)),
                subst (λ u. from_chars tag_mod u ≡ ok n) e (from_chars-format_uint fmt tag_mod n h),
                decode_field,
              )
              refl)

  -- A segment is not empty.
  decode_fields-segment :
      (d : Decoding) (n : Tag) (v : Bytes) (fs : List Bytes)
      → n < tag_mod
      → decode_fields d (segment n v ∷ fs) ≡ decode_fields (store d n v) fs
  unfolding decode_fields
  decode_fields-segment d n v fs h = split (segment n v) refl
    where
      split :
          (s : Bytes)
          → segment n v ≡ s
          → decode_fields d (segment n v ∷ fs) ≡ decode_fields (store d n v) fs
      split [] e = absurd (segment-ne_nil n v e)
      split (c ∷ s) e =
          ap (λ (u : Bytes). decode_fields d (u ∷ fs)) e
          ∙ ap (λ (r : Result Decoding). r >>= λ d'. decode_fields d' fs)
              (subst (λ u. decode_field d u ≡ ok (store d n v)) e (decode_field-segment d n v h))

  segments : List Field → List Bytes
  segments [] = []
  segments (f ∷ fs) = segment f.number f.value ∷ segments fs

  encode_field-segment :
      (n : Tag) (v : Bytes) → encode_field fmt delimiter n v ≡ segment n v ++ delimiter ∷ []
  unfolding encode_field segment
  encode_field-segment n v = rw (fmt.format_text_same v) refl

  fields_of-encode_fields :
      (fs : List Field)
      → All (IsWireField delimiter) fs
      → fields_of delimiter (encode_fields fmt delimiter fs) ≡ segments fs
  unfolding encode_fields segments fields_of
  fields_of-encode_fields [] h = refl
  fields_of-encode_fields (f ∷ fs) h =
      ap (λ (u : Bytes). fields_of delimiter (u ++ encode_fields fmt delimiter fs))
        (encode_field-segment f.number f.value)
      ∙ fields_of-segment delimiter (segment f.number f.value) (encode_fields fmt delimiter fs)
          (segment-Free f.number f.value h.0.2)
      ∙ ap (λ (gs : List Bytes). segment f.number f.value ∷ gs) (fields_of-encode_fields fs h.1)

  decode_fields-segments :
      (d : Decoding) (fs : List Field)
      → All (IsWireField delimiter) fs
      → decode_fields d (segments fs) ≡ ok (record d { output = set_all d.output fs })
  unfolding segments set_all decode_fields store
  decode_fields-segments d [] h = refl
  decode_fields-segments d (f ∷ fs) h =
      decode_fields-segment d f.number f.value (segments fs) h.0.0
      ∙ ap (λ (x : Decoding). decode_fields x (segments fs)) (stored f h.0.1)
      ∙ decode_fields-segments (record d { output = set d.output f.number f.value }) fs h.1
    where
      stored :
          (g : Field)
          → g.number ≢ msg_type_tag
          → store d g.number g.value ≡ record d { output = set d.output g.number g.value }
      stored g k = ground arith

module _ (fmt : Fmt) (delimiter : ℕ) where
  -- The text of a message is decoded to that message: for a delimiter that is neither a digit nor
  -- `=`, a message type that is not empty, tags that fit 16 bits, are not the tag of the message type
  -- and occur once, and a type and values without the delimiter.
  pub decode-encode :
      (m : Message)
      → ¬ IsDigit delimiter
      → b'=' ≢ delimiter
      → IsWireMessage delimiter m
      → decode delimiter (encode fmt delimiter m) ≡ ok m
  unfolding decode encode store
  decode-encode m not_digit not_equals w =
      ap finish fields
      ∙ ap (λ (r : Result Decoding). r >>= typed)
          (decode_fields-segment fmt delimiter not_digit not_equals start msg_type_tag m.msg_type
            (segments fmt delimiter not_digit not_equals m.fields) (omega arith))
      ∙ ap (λ (r : Result Decoding). r >>= typed)
          (decode_fields-segments fmt delimiter not_digit not_equals
            (record start { msg_type = m.msg_type }) m.fields w.fields_fit)
      ∙ typed-set_all m w.has_type w.distinct
    where
      start : Decoding
      start = record { msg_type = []; output = new_message [] }

      finish : List Bytes → Result Message
      finish fs = decode_fields start fs >>= typed

      fields :
          fields_of delimiter (encode fmt delimiter m)
          ≡ segment fmt delimiter not_digit not_equals msg_type_tag m.msg_type
            ∷ segments fmt delimiter not_digit not_equals m.fields
      fields =
          ap (λ (u : Bytes). fields_of delimiter (u ++ encode_fields fmt delimiter m.fields))
            (encode_field-segment fmt delimiter not_digit not_equals msg_type_tag m.msg_type)
          ∙ fields_of-segment delimiter
              (segment fmt delimiter not_digit not_equals msg_type_tag m.msg_type)
              (encode_fields fmt delimiter m.fields)
              (segment-Free fmt delimiter not_digit not_equals msg_type_tag m.msg_type w.type_free)
          ∙ ap
              (λ (gs : List Bytes).
                segment fmt delimiter not_digit not_equals msg_type_tag m.msg_type ∷ gs)
              (fields_of-encode_fields fmt delimiter not_digit not_equals m.fields w.fields_fit)
