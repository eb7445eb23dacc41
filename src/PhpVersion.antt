-- ===== src/PhpVersion.antt =====
-- src/languages/php_version.ts: the PHP image for a project.
-- A project's files are a function from the file's name to what `existsSync` and
-- `parse_file_as_json` make of it; the output of `php --version` is there unless it threw.
pub mod Constraint
pub mod Groups
pub mod Highest
pub mod Terms
pub mod Image
mod Tests
use patchlab.Common.{
  is_space, trim, ℕ, Text, codes, has, starts_with, drop, length, cons_head, text_eq, Option, none,
  some, first_some, or_else, Result, ok, err, ◌>>=◌, ltb, leb, ◌==◌, is_digit, if◌then◌else◌,
  find_first, filterb, allb, anyb, Bool, true, false, not, ◌&&◌, ◌||◌, List, [], ◌∷◌, ◌++◌,
}
use patchlab.Common.Decimal.{decimal_value, span_digits}
use patchlab.Json.{Json, null, boolean, number, string, array, object, get_member}

pub data ProjectFile : Type 0 where
  absent : ProjectFile
  malformed : ProjectFile
  parsed : Json → ProjectFile

-- A property of null was read.
pub data TypeError : Type 0 where
  property_of_null : TypeError

abbrev pub full_stop : ℕ
full_stop = b'.'

abbrev pub bar : ℕ
bar = b'|'

abbrev pub known_php_versions : List Text
known_php_versions =
    codes "8.4" ∷ codes "8.3" ∷ codes "8.2" ∷ codes "8.1" ∷ codes "8.0" ∷ codes "7.4" ∷ []

abbrev second_number : Text → Text × Text → Option (Text × (Text × Text))
second_number major ([], rest) = none
second_number major (d ∷ ds, rest) = some (major, (d ∷ ds, rest))

abbrev behind_major : Text × Text → Option (Text × (Text × Text))
behind_major ([], rest) = none
behind_major (d ∷ ds, []) = none
behind_major (d ∷ ds, c ∷ cs) =
    let found = second_number (d ∷ ds) (span_digits cs) in if c == full_stop then found else none

-- `(\d+)\.(\d+)` at the start of a text, and what stands behind it
pub number_pair : Text → Option (Text × (Text × Text))
number_pair text = behind_major (span_digits text)

abbrev whole_number : Text × Text → Option Text
whole_number ([], rest) = none
whole_number (d ∷ ds, []) = some (d ∷ ds)
whole_number (d ∷ ds, c ∷ cs) = none

-- `(\d+)$`
pub number_end : Text → Option Text
number_end text = whole_number (span_digits text)

-- `version.split('.').map(Number)`; the versions that the code passes are `major.minor`, and on
-- any other text every comparison fails, as with NaN.
abbrev numbers_of : Option (Text × (Text × Text)) → Option (ℕ × ℕ)
numbers_of (some (major, (minor, []))) = some (decimal_value major, decimal_value minor)
numbers_of (some (major, (minor, c ∷ cs))) = none
numbers_of none = none

pub version_numbers : Text → Option (ℕ × ℕ)
version_numbers version = numbers_of (number_pair version)

module _ (major minor a b : ℕ) where
  abbrev pub same_major_at_least : Bool
  same_major_at_least = major == a && leb b minor

  abbrev pub same_major_and_minor : Bool
  same_major_and_minor = major == a && minor == b

  abbrev pub version_gte : Bool
  version_gte = ltb a major || (major == a && leb b minor)

  abbrev pub version_gt : Bool
  version_gt = ltb a major || (major == a && ltb b minor)

  abbrev pub version_lte : Bool
  version_lte = ltb major a || (major == a && leb minor b)

  abbrev pub version_lt : Bool
  version_lt = ltb major a || (major == a && ltb minor b)

abbrev pub Comparison : Type 0
Comparison = ℕ → ℕ → ℕ → ℕ → Bool

abbrev pub compared : Comparison → Option (ℕ × ℕ) → ℕ → ℕ → Bool
compared c none a b = false
compared c (some (major, minor)) a b = c major minor a b

abbrev if_starts : Bool → Option Bool → Option Bool
if_starts true o = o
if_starts false o = none

abbrev judge_pair : Comparison → Option (ℕ × ℕ) → Option (Text × (Text × Text)) → Option Bool
judge_pair c version none = none
judge_pair c version (some (a, (b, rest))) =
    some (compared c version (decimal_value a) (decimal_value b))

abbrev judge_single : Comparison → Option (ℕ × ℕ) → Option Text → Option Bool
judge_single c version none = none
judge_single c version (some a) = some (compared c version (decimal_value a) 0)

abbrev judge_wildcard : Option (ℕ × ℕ) → Option (Text × (Text × Text)) → Option Bool
judge_wildcard version none = none
judge_wildcard version (some (a, (b, rest))) =
    let answer = some (compared same_major_and_minor version (decimal_value a) (decimal_value b)) in
    if_starts (starts_with rest (codes ".*")) answer

-- The regular expressions of one operator: with a minor version, then with a major one alone.
module _ (version : Option (ℕ × ℕ)) (part : Text) where
  pub operator_rule : Text → Comparison → Comparison → Option Bool
  operator_rule operator with_minor major_alone =
      let numbers = drop (length operator) part in
      if_starts (starts_with part operator) (
        first_some (judge_pair with_minor version (number_pair numbers))
          (judge_single major_alone version (number_end numbers)))

  abbrev exact_rule : Option Bool
  exact_rule =
      first_some (judge_wildcard version (number_pair part))
        (judge_pair same_major_and_minor version (number_pair part))

-- The regular expressions in the source's order; a part that none matches is satisfied.
pub satisfies_part : Text → Text → Bool
satisfies_part version part =
    let v = version_numbers version in
    or_else
      (first_some (operator_rule v part (codes "^") same_major_at_least (λ major _ a _. major == a))
        (first_some
          (operator_rule v part (codes "~") same_major_at_least (λ major _ a _. major == a))
          (first_some (operator_rule v part (codes ">=") version_gte (λ major _ a _. leb a major)) (
            first_some (operator_rule v part (codes ">") version_gt (λ major _ a _. ltb a major)) (
              first_some
                (operator_rule v part (codes "<=") version_lte (λ major _ a _. leb major a))
                (first_some
                  (operator_rule v part (codes "<") version_lt (λ major _ a _. ltb major a))
                  (exact_rule v part)))))))
      true

-- A comma or white space parts the constraints of a group.
abbrev pub parts_group : ℕ → Bool
parts_group c = c == b',' || is_space c

-- `split(/\s*,\s*|\s+/)`, up to empty pieces, which `filter(Boolean)` drops
pub split_group : Text → List Text
split_group [] = [] ∷ []
split_group (c ∷ cs) =
    let rest = split_group cs in if parts_group c then [] ∷ rest else cons_head c rest

abbrev pub is_not_empty : Text → Bool
is_not_empty part = ltb 0 (length part)

pub satisfies_group : Text → Text → Bool
satisfies_group version group =
    allb (λ part. satisfies_part version part) (filterb is_not_empty (split_group group))

-- `split(/\|\|?/)`; the flag says that one bar has just been read, which a second one joins
pub split_bars : Bool → Text → List Text
split_bars after_bar [] = [] ∷ []
split_bars after_bar (c ∷ cs) =
    let rest = split_bars (c == bar && not after_bar) cs in
    if c == bar then (if after_bar then rest else [] ∷ rest) else cons_head c rest

abbrev pub has_bar : Text → Bool
has_bar text = anyb (λ c. c == bar) text

pub satisfies_php_constraint : Text → Text → Bool
satisfies_php_constraint version constraint =
    if has_bar constraint
    then anyb (λ part. satisfies_group version (trim part)) (split_bars false constraint)
    else satisfies_group version (trim constraint)

abbrev pub image : Text → Text
image version = codes "php:" ++ (version ++ codes "-cli")

-- The value of a member; a value that is no object has none of the names asked for.
abbrev pub property : Json → Text → Result TypeError (Option Json)
property null name = err property_of_null
property (boolean b) name = ok none
property (number _) name = ok none
property (string text) name = ok none
property (array _) name = ok none
property (object members) name = ok (get_member members name)

abbrev text_of : Option Json → Option Text
text_of (some (string text)) = some text
text_of _ = none

-- A member of a value that must be an object, where the member must be a string.
abbrev pub string_member : Option Json → Text → Option Text
string_member (some (object members)) name = text_of (get_member members name)
string_member _ name = none

abbrev only_patch : Text → Text × Text → Bool
only_patch [] _ = true
only_patch (c ∷ cs) (d ∷ ds, []) = c == full_stop
only_patch (c ∷ cs) _ = false

abbrev behind_stop : Text → Text × Text
behind_stop rest = span_digits (drop 1 rest)

abbrev lock_image : Option (Text × (Text × Text)) → Option Text
lock_image none = none
lock_image (some (major, (minor, rest))) =
    if only_patch rest (behind_stop rest) then some (image (major ++ (full_stop ∷ minor))) else none

abbrev image_of_lock_text : Option Text → Option Text
image_of_lock_text none = none
image_of_lock_text (some text) = lock_image (number_pair text)

pub resolve_php_version_from_lock : ProjectFile → Result TypeError (Option Text)
resolve_php_version_from_lock absent = ok none
resolve_php_version_from_lock malformed = ok none
resolve_php_version_from_lock (parsed lock) = property lock (codes "platform") >>= λ platform.
    ok (image_of_lock_text (string_member platform (codes "php")))

abbrev host_image : Option (Text × (Text × Text)) → Option Text
host_image (some (major, (minor, c ∷ d ∷ rest))) =
    if c == full_stop && is_digit d then some (image (major ++ (full_stop ∷ minor))) else none
host_image _ = none

pub resolve_php_version_from_host : Option Text → Option Text
resolve_php_version_from_host none = none
resolve_php_version_from_host (some output) =
    if starts_with output (codes "PHP ") then host_image (number_pair (drop 4 output)) else none

abbrev pub first_satisfying : Text → Option Text
first_satisfying [] = none
first_satisfying (c ∷ cs) =
    find_first (λ version. satisfies_php_constraint version (c ∷ cs)) known_php_versions

abbrev pub image_of_version : Option Text → Option Text
image_of_version none = none
image_of_version (some version) = some (image version)

abbrev pub image_of_constraint : Option Text → Option Text
image_of_constraint none = none
image_of_constraint (some constraint) = image_of_version (first_satisfying constraint)

pub resolve_php_image_from_constraint : ProjectFile → Result TypeError (Option Text)
resolve_php_image_from_constraint absent = ok none
resolve_php_image_from_constraint malformed = ok none
resolve_php_image_from_constraint (parsed composer) =
    property composer (codes "require") >>= λ section.
    ok (image_of_constraint (string_member section (codes "php")))

abbrev otherwise : Result TypeError (Option Text) → Option Text → Result TypeError (Option Text)
otherwise next none = next
otherwise next (some found) = ok (some found)

-- The host is asked and the constraint read only where what comes before gives nothing.
pub resolve_php_image : (Text → ProjectFile) → Option Text → Result TypeError (Option Text)
resolve_php_image files host_output =
    resolve_php_version_from_lock (files (codes "composer.lock"))
    >>= otherwise (
        otherwise (resolve_php_image_from_constraint (files (codes "composer.json")))
          (resolve_php_version_from_host host_output))
