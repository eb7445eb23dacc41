-- ===== src/PathContainment/Tests.antt =====
-- Runs of src/path_containment.ts, and the theorems at concrete inputs.
use patchlab.Common.{◌≡◌, ◌↔◌, refl, Text, codes, text_eq, starts_with, true, false}
use patchlab.PathContainment.{
  ends_with_slash, strip_trailing_slashes, strip_separators, normalize_for_compare, with_separator,
  is_path_within,
}
use patchlab.PathContainment.Canonical.{folded}
use patchlab.PathContainment.Within.{IsWithin, is_path_within-IsWithin_iff}

abbrev inner : Text
inner = codes "C:\\Repo\\src\\a.ts"

abbrev middle : Text
middle = codes "c:/repo/SRC//"

abbrev outer : Text
outer = codes "C:/repo/"

inner_within : is_path_within inner middle true ≡ true
unfolding is_path_within normalize_for_compare strip_separators strip_trailing_slashes
    ends_with_slash with_separator text_eq starts_with
inner_within = refl

middle_within : is_path_within middle outer true ≡ true
unfolding is_path_within normalize_for_compare strip_separators strip_trailing_slashes
    ends_with_slash with_separator text_eq starts_with
middle_within = refl

-- A sibling whose name goes on is not within, and the root is not the empty path.
sibling_run : is_path_within (codes "/repo2") (codes "/repo") false ≡ false
unfolding is_path_within normalize_for_compare strip_separators strip_trailing_slashes
    ends_with_slash with_separator text_eq starts_with
sibling_run = refl

root_run : is_path_within (codes "relative") (codes "//") false ≡ false
unfolding is_path_within normalize_for_compare strip_separators strip_trailing_slashes
    ends_with_slash with_separator text_eq starts_with
root_run = refl

is_path_within-IsWithin_iff_example :
    (is_path_within inner middle true ≡ true) ↔ IsWithin (folded true inner) (folded true middle)
is_path_within-IsWithin_iff_example =
    is_path_within-IsWithin_iff inner middle true (λ e. cc) (λ e. cc)
