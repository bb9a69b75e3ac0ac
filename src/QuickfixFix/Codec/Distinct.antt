-- ===== src/QuickfixFix/Codec/Distinct.antt =====
-- Setting fields of distinct tags, one after the other, keeps them in their order.
use cpp_demo_build.Prelude.{
  ◌≡◌, ◌≢◌, refl, List, [], ◌∷◌, ◌++◌, Bytes, All, All-append, arith, ap, ◌∙◌, sym,
}
use cpp_demo_build.Prelude.Result.{ok}
use cpp_demo_build.QuickfixFix.Message.{Tag, Field, Message, new_message, set, set_fields}
use cpp_demo_build.QuickfixFix.Codec.{set_all, typed}

-- No tag occurs twice.
abbrev pub IsDistinct : List Field → Type 0
IsDistinct [] = Unit {0}
IsDistinct (f ∷ fs) = All (λ (g : Field). f.number ≢ g.number) fs × IsDistinct fs

set_fields-new :
    (n : Tag) (v : Bytes) (fs : List Field)
    → All (λ (g : Field). g.number ≢ n) fs
    → set_fields n v fs ≡ fs ++ record { number = n; value = v } ∷ []
unfolding set_fields
set_fields-new n v [] h = refl
set_fields-new n v (f ∷ fs) h = ground (arith, h.0, set_fields-new n v fs h.1)

append_assoc : (xs ys zs : List Field) → (xs ++ ys) ++ zs ≡ xs ++ (ys ++ zs)
append_assoc [] ys zs = refl
append_assoc (x ∷ xs) ys zs = ap (λ (l : List Field). x ∷ l) (append_assoc xs ys zs)

append_nil : (xs : List Field) → xs ++ [] ≡ xs
append_nil [] = refl
append_nil (x ∷ xs) = ap (λ (l : List Field). x ∷ l) (append_nil xs)

-- New tags join at the end, in their order.
abbrev Unused : List Field → Field → Type 0
Unused old f = All (λ (g : Field). g.number ≢ f.number) old

Unused-snoc :
    (old : List Field) (f : Field) (fs : List Field)
    → All (Unused old) fs
    → All (λ (g : Field). f.number ≢ g.number) fs
    → All (Unused (old ++ f ∷ [])) fs
Unused-snoc old f [] h k = tt
Unused-snoc old f (g ∷ gs) h k = (
  All-append (λ (x : Field). x.number ≢ g.number) old (f ∷ []) h.0 (k.0, tt),
  Unused-snoc old f gs h.1 k.1,
)

set_all-new :
    (m : Message) (fs : List Field)
    → All (Unused m.fields) fs
    → IsDistinct fs
    → set_all m fs ≡ record m { fields = m.fields ++ fs }
unfolding set_all set
set_all-new m [] h d = λ i. record m { fields = sym (append_nil m.fields) i }
set_all-new m (f ∷ fs) h d =
    ap (λ (l : List Field). set_all (record m { fields = l }) fs)
      (set_fields-new f.number f.value m.fields h.0)
    ∙ set_all-new (record m { fields = m.fields ++ f ∷ [] }) fs (Unused-snoc m.fields f fs h.1 d.0)
        d.1
    ∙ ap (λ (l : List Field). record m { fields = l }) (append_assoc m.fields (f ∷ []) fs)

Unused-nil : (fs : List Field) → All (Unused []) fs
Unused-nil [] = tt
Unused-nil (f ∷ fs) = (tt, Unused-nil fs)

pub typed-set_all :
    (m : Message)
    → m.msg_type ≢ []
    → IsDistinct m.fields
    → typed (record { msg_type = m.msg_type; output = set_all (new_message []) m.fields }) ≡ ok m
unfolding typed
typed-set_all m has_type d =
    rw (set_all-new (new_message []) m.fields (Unused-nil m.fields) d) (named m.msg_type refl)
  where
    named :
        (s : Bytes)
        → m.msg_type ≡ s
        → typed
            (record { msg_type = m.msg_type; output = record { msg_type = []; fields = m.fields } })
          ≡ ok m
    named [] e = absurd (has_type e)
    named (c ∷ s) e =
        ap
          (λ (u : Bytes).
            typed (record { msg_type = u; output = record { msg_type = []; fields = m.fields } }))
          e
        ∙ ap ok (set_all-new (new_message (c ∷ s)) m.fields (Unused-nil m.fields) d)
        ∙ ap (λ (u : Bytes). ok (record { msg_type = u; fields = m.fields })) (sym e)
