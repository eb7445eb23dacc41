-- ===== src/PhpVersion/Tests.antt =====
-- Runs of src/languages/php_version.ts, and the theorems at concrete inputs.
use patchlab.Common.{
  ◌≡◌, ◌↔◌, refl, Text, codes, text_eq, starts_with, trim, trim_start, trim_end, if◌then◌else◌, ok,
  err, some, Option, [], ◌∷◌, Bool, true, false, ◌++◌,
}
use patchlab.Common.Decimal.{span_digits, to_decimal}
use patchlab.Json.{Json, null, string, object, no_members, member, get_member}
use patchlab.PhpVersion.{
  ProjectFile, absent, parsed, property_of_null, property, string_member, number_pair, number_end,
  version_numbers, operator_rule, satisfies_part, split_group, satisfies_group, split_bars,
  satisfies_php_constraint, resolve_php_version_from_lock, resolve_php_version_from_host,
  resolve_php_image_from_constraint, resolve_php_image,
}
use patchlab.PhpVersion.Constraint.{
  at_most, caret, below, version_text, Meaning, satisfies_part-Meaning,
}
use patchlab.PhpVersion.Terms.{Term, terms_text}
use patchlab.PhpVersion.Highest.{IsHighest, resolve_php_image_from_constraint-IsHighest}
use patchlab.PhpVersion.Image.{resolve_php_version_from_lock-eq-err_iff}

abbrev satisfied_by : Text → Text → Bool
satisfied_by version constraint = satisfies_php_constraint version constraint

either_run : satisfied_by (codes "8.3") (codes "7.4 || ^8.0") ≡ true
unfolding satisfies_php_constraint satisfies_group satisfies_part split_bars split_group
    operator_rule version_numbers number_pair number_end span_digits starts_with trim trim_start
    trim_end
either_run = refl

-- Three numbers behind a tilde: the third is not looked at.
tilde_patch_run : satisfied_by (codes "8.4") (codes "~8.1.0") ≡ true
unfolding satisfies_php_constraint satisfies_group satisfies_part split_bars split_group
    operator_rule version_numbers number_pair number_end span_digits starts_with trim trim_start
    trim_end
tilde_patch_run = refl

-- A space behind the operator parts it from its version.
spaced_operator_run : satisfied_by (codes "8.3") (codes ">= 8.1") ≡ false
unfolding satisfies_php_constraint satisfies_group satisfies_part split_bars split_group
    operator_rule version_numbers number_pair number_end span_digits starts_with trim trim_start
    trim_end
spaced_operator_run = refl

satisfies_part-Meaning_example :
    (satisfies_part (version_text 8 3) (codes "<=" ++ version_text 8 10) ≡ true)
    ↔ Meaning at_most 8 3 8 10
satisfies_part-Meaning_example = satisfies_part-Meaning at_most 8 3 8 10

abbrev composer_json : Json
composer_json = object (
    member (codes "require") (object (member (codes "php") (string (codes "^8.0 <8.3")) no_members))
      no_members)

abbrev composer : ProjectFile
composer = parsed composer_json

composer_run : resolve_php_image_from_constraint composer ≡ ok (some (codes "php:8.2-cli"))
unfolding resolve_php_image_from_constraint get_member text_eq satisfies_php_constraint
    satisfies_group satisfies_part split_bars split_group operator_rule version_numbers number_pair
    number_end span_digits starts_with trim trim_start trim_end
composer_run = refl

abbrev required : Option Json
required = some (object (member (codes "php") (string (codes "^8.0 <8.3")) no_members))

abbrev first_term : Term
first_term = record { operator = caret; major = 8; minor = 0 }

abbrev second_term : Term
second_term = record { operator = below; major = 8; minor = 3 }

required_read :
    string_member required (codes "php") ≡ some (terms_text first_term (second_term ∷ []))
unfolding get_member text_eq to_decimal
required_read = refl

composer_read : property composer_json (codes "require") ≡ ok required
unfolding get_member text_eq
composer_read = refl

resolve_php_image_from_constraint-IsHighest_example :
    (answer : Option Text) × (resolve_php_image_from_constraint composer ≡ ok answer)
    × IsHighest first_term (second_term ∷ []) answer
resolve_php_image_from_constraint-IsHighest_example =
    resolve_php_image_from_constraint-IsHighest composer_json required first_term (second_term ∷ [])
      composer_read required_read

resolve_php_version_from_lock-eq-err_iff_example :
    (resolve_php_version_from_lock (parsed null) ≡ err property_of_null)
    ↔ (◌≡◌ {A = ProjectFile} (parsed null) (parsed null))
resolve_php_version_from_lock-eq-err_iff_example =
    resolve_php_version_from_lock-eq-err_iff (parsed null)

abbrev lock_file : ProjectFile
lock_file = parsed (
    object (
      member (codes "platform") (object (member (codes "php") (string (codes "8.1.27")) no_members))
        no_members))

abbrev files : ProjectFile → Text → ProjectFile
files lock name = if text_eq name (codes "composer.lock") then lock else composer

lock_first_run :
    resolve_php_image (files lock_file) (some (codes "PHP 8.3.1 (cli)"))
    ≡ ok (some (codes "php:8.1-cli"))
unfolding resolve_php_image resolve_php_version_from_lock get_member text_eq number_pair span_digits
lock_first_run = refl

host_second_run :
    resolve_php_image (files absent) (some (codes "PHP 8.3.1 (cli)"))
    ≡ ok (some (codes "php:8.3-cli"))
unfolding resolve_php_image resolve_php_version_from_lock resolve_php_version_from_host get_member
    text_eq number_pair span_digits starts_with
host_second_run = refl
