-- ===== src/Examples/Documents.antt =====
-- A concrete document library: values as a data type, and texts in a postfix code.
use cpp_demo_build.Prelude.{
  ℕ, ◌≡◌, refl, Bool, true, false, Option, none, some, List, [], ◌∷◌, Bytes, eqb, ◌==◌,
  if◌then◌else◌, ap, ◌∙◌, codes, All,
}
use cpp_demo_build.Prelude.Throws.{Throws, value, threw}
use cpp_demo_build.Lab.Json.{Json, member}
use cpp_demo_build.Lab.Json.Fields.{JsonItems}

mutual
  pub data Document : Type 0 where
    number : ℕ → Document
    text : Bytes → Document
    null : Document
    object : Fields → Document

  pub data Fields : Type 0 where
    end : Fields
    field : Bytes → Document → Fields → Fields

abbrev pub fields_of : List (Bytes × Document) → Fields
fields_of [] = end
fields_of ((k, v) ∷ fs) = field k v (fields_of fs)

abbrev pub member_of : Bytes → Fields → Option Document
member_of key end = none
member_of key (field k v fs) = if eqb key k then some v else member_of key fs

pub member_of-fields_of :
    (key : Bytes) (fs : List (Bytes × Document)) → member_of key (fields_of fs) ≡ member key fs
member_of-fields_of key [] = refl
member_of-fields_of key ((k, v) ∷ fs) =
    ap (λ o. if eqb key k then some v else o) (member_of-fields_of key fs)

abbrev pub find : Document → Bytes → Option Document
find (object fs) key = member_of key fs
find (number n) key = none
find (text s) key = none
find null key = none

abbrev pub or_threw : Option Document → Throws Document
or_threw none = threw (codes "key not found")
or_threw (some v) = value v

abbrev pub get_number : Document → Throws ℕ
get_number (number n) = value n
get_number (text s) = threw (codes "type must be number")
get_number null = threw (codes "type must be number")
get_number (object fs) = threw (codes "type must be number")

abbrev pub get_string : Document → Throws Bytes
get_string (text s) = value s
get_string (number n) = threw (codes "type must be string")
get_string null = threw (codes "type must be string")
get_string (object fs) = threw (codes "type must be string")

abbrev pub is_null : Document → Bool
is_null null = true
is_null (number n) = false
is_null (text s) = false
is_null (object fs) = false

-- Codes of two entries each, that push onto a stack of documents or change its top.
abbrev add_character : ℕ → List Document → List Document
add_character c (text s ∷ st) = text (c ∷ s) ∷ st
add_character c st = st

abbrev add_field : List Document → List Document
add_field (v ∷ text k ∷ object fs ∷ st) = object (field k v fs) ∷ st
add_field st = st

apply : ℕ → ℕ → List Document → List Document
apply code n st =
    if code == 0
    then number n ∷ st
    else if code == 1
    then text [] ∷ st
    else if code == 2
    then add_character n st
    else if code == 3
    then null ∷ st
    else if code == 4
    then object end ∷ st
    else add_field st

run : List ℕ → List Document → List Document
run [] st = st
run (c ∷ []) st = st
run (c ∷ n ∷ rest) st = run rest (apply c n st)

-- A text is written from its end.
write_text : Bytes → List ℕ → List ℕ
write_text [] rest = 1 ∷ 0 ∷ rest
write_text (c ∷ s) rest = write_text s (2 ∷ c ∷ rest)

mutual
  write : Document → List ℕ → List ℕ
  write (number n) rest = 0 ∷ n ∷ rest
  write (text s) rest = write_text s rest
  write null rest = 3 ∷ 0 ∷ rest
  write (object fs) rest = write_fields fs rest

  write_fields : Fields → List ℕ → List ℕ
  write_fields end rest = 4 ∷ 0 ∷ rest
  write_fields (field k v fs) rest = write_fields fs (write_text k (write v (5 ∷ 0 ∷ rest)))

run-write_text :
    (s : Bytes) (rest : List ℕ) (st : List Document)
    → run (write_text s rest) st ≡ run rest (text s ∷ st)
unfolding run write_text apply
run-write_text [] rest st = refl
run-write_text (c ∷ s) rest st = run-write_text s (2 ∷ c ∷ rest) st

mutual
  unfolding run write write_fields apply

  run-write :
      (v : Document) (rest : List ℕ) (st : List Document)
      → run (write v rest) st ≡ run rest (v ∷ st)
  run-write (number n) rest st = refl
  run-write (text s) rest st = run-write_text s rest st
  run-write null rest st = refl
  run-write (object fs) rest st = run-write_fields fs rest st

  run-write_fields :
      (fs : Fields) (rest : List ℕ) (st : List Document)
      → run (write_fields fs rest) st ≡ run rest (object fs ∷ st)
  run-write_fields end rest st = refl
  run-write_fields (field k v fs) rest st =
      run-write_fields fs (write_text k (write v (5 ∷ 0 ∷ rest))) st
      ∙ run-write_text k (write v (5 ∷ 0 ∷ rest)) (object fs ∷ st)
      ∙ run-write v (5 ∷ 0 ∷ rest) (text k ∷ object fs ∷ st)

abbrev pub top : List Document → Throws Document
top [] = threw (codes "unexpected end of input")
top (v ∷ st) = value v

unfoldable pub parse : Bytes → Throws Document
unfolding run apply
parse [] = threw (codes "unexpected end of input")
parse (c ∷ rest) = top (run rest [])

unfoldable pub dump : Document → Bytes
unfolding write write_text write_fields
dump v = b'{' ∷ write v []

pub parse-dump : (v : Document) → parse (dump v) ≡ value v
unfolding parse dump
parse-dump v = ap top (run-write v [] [])

pub dump_object :
    (fs : List (Bytes × Document)) → (rest : Bytes) × (dump (object (fields_of fs)) ≡ b'{' ∷ rest)
unfolding dump
dump_object fs = (write (object (fields_of fs)) [], refl)

pub at-object :
    (fs : List (Bytes × Document)) (key : Bytes) (v : Document)
    → member key fs ≡ some v
    → or_threw (find (object (fields_of fs)) key) ≡ value v
at-object fs key v h = ap or_threw (member_of-fields_of key fs ∙ h)

abbrev pub documents : Json
documents = record {
  Value = Document;
  of_number = number;
  of_string = text;
  null = null;
  object = λ fs. object (fields_of fs);
  at = λ v key. or_threw (find v key);
  find = find;
  get_number = get_number;
  get_string = get_string;
  is_null = is_null;
  parse = parse;
  dump = dump;
  IsWritable = λ v. Unit {0};
  number_writable = λ n. tt;
  string_writable = λ s h. tt;
  null_writable = tt;
  object_writable = λ fs h. tt;
  find-object = λ fs key. member_of-fields_of key fs;
  at-object = at-object;
  get_number-of_number = λ n h. refl;
  get_string-of_string = λ s. refl;
  parse-dump = λ v h. parse-dump v;
  dump_object = dump_object;
}

abbrev pub names_of : Fields → List Bytes
names_of end = []
names_of (field k v fs) = k ∷ names_of fs

abbrev pub items : Document → Option (List Bytes)
items (object fs) = some (names_of fs)
items (number n) = none
items (text s) = none
items null = none

pub names_of-All :
    (P : Bytes → Type 0) (fs : List (Bytes × Document))
    → All (λ (f : Bytes × Document). P f.0) fs
    → All P (names_of (fields_of fs))
names_of-All P [] h = tt
names_of-All P ((k, v) ∷ fs) h = (h.0, names_of-All P fs h.1)

abbrev pub document_items : JsonItems documents
document_items = record {
  items = items;
  items-object = λ fs. (names_of (fields_of fs), refl, λ P h. names_of-All P fs h);
}
