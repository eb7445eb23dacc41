-- ===== src/Json/Reading.antt =====
-- Reading the members of an object back.
use patchlab.Common.{
  ◌≡◌, refl, sym, ◌∙◌, Text, text_eq, text_eq_iff, has, IsDistinct, Bool, true, false, Option, none,
  some, List, [], ◌∷◌, ap, arith, if◌then◌else◌, Bool-cases, inl, inr, not, ◌&&◌,
}
use patchlab.Json.{Json, get_member, items, array_of, entries, object_of, defined_members}

pub items-array_of : (values : List Json) → items (array_of values) ≡ values
unfolding items array_of
items-array_of [] = refl
items-array_of (v ∷ values) = ap (λ (vs : List Json). v ∷ vs) (items-array_of values)

pub entries-object_of : (fields : List (Text × Json)) → entries (object_of fields) ≡ fields
unfolding entries object_of
entries-object_of [] = refl
entries-object_of ((k, v) ∷ fields) =
    ap (λ (fs : List (Text × Json)). (k, v) ∷ fs) (entries-object_of fields)

abbrev pub names : List (Text × Option Json) → List Text
names [] = []
names ((k, _) ∷ fields) = k ∷ names fields

-- The field of that name; an `undefined` one is as good as none.
abbrev pub field : List (Text × Option Json) → Text → Option Json
field [] name = none
field ((k, o) ∷ fields) name = if text_eq k name then o else field fields name

unwritten :
    (fields : List (Text × Option Json)) (name : Text)
    → has (names fields) name ≡ false
    → get_member (defined_members fields) name ≡ none
unfolding get_member defined_members has
unwritten [] name h = refl
unwritten ((k, none) ∷ fields) name h = unwritten fields name (ground arith)
unwritten ((k, some v) ∷ fields) name h = ground (arith, unwritten fields name)

-- What is read of a member is what was written, where no name stands twice.
pub get_member-defined_members :
    (fields : List (Text × Option Json)) (name : Text)
    → IsDistinct (names fields)
    → get_member (defined_members fields) name ≡ field fields name
unfolding get_member defined_members
get_member-defined_members [] name h = refl
get_member-defined_members ((k, some v) ∷ fields) name (fresh, h) =
    ground (arith, get_member-defined_members fields name h)
get_member-defined_members ((k, none) ∷ fields) name (fresh, h) =
    elim (Bool-cases (text_eq k name)) [
      | inl e ↦
          let q = (text_eq_iff k name).0 e in
          let unread = unwritten fields name (ap (has (names fields)) (sym q) ∙ fresh) in
          rw e unread
      | inr e ↦ rw e (get_member-defined_members fields name h)
    ]

-- Whether no text of a list stands twice.
abbrev pub distinct : List Text → Bool
distinct [] = true
distinct (x ∷ xs) = not (has xs x) && distinct xs

pub distinct-IsDistinct : (xs : List Text) → distinct xs ≡ true → IsDistinct xs
distinct-IsDistinct [] h = tt
distinct-IsDistinct (x ∷ xs) h = (ground arith, distinct-IsDistinct xs (ground arith))
