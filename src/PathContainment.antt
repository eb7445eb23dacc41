-- ===== src/PathContainment.antt =====
-- src/path_containment.ts: whether one path lies within another, under the host's rules.
-- `toLowerCase` is modelled on the ASCII letters, which are those that the source means.
pub mod Order
pub mod Canonical
pub mod Within
mod Tests
use patchlab.Common.{
  ℕ, Text, codes, text_eq, starts_with, lower, length, Bool, true, false, ◌&&◌, List, [], ◌∷◌, ◌++◌,
  map, ltb, ◌==◌, if◌then◌else◌,
}

abbrev pub slash : ℕ
slash = b'/'

-- `replaceAll('\\', '/')`, one code unit
abbrev pub unify_separator : ℕ → ℕ
unify_separator c = if c == 92 then slash else c

-- `endsWith('/')`
unfoldable pub ends_with_slash : Text → Bool
ends_with_slash [] = false
ends_with_slash (c ∷ []) = c == slash
ends_with_slash (c ∷ d ∷ cs) = ends_with_slash (d ∷ cs)

abbrev pub keep_unless_slash : ℕ → Text → Text
keep_unless_slash c [] = if c == slash then [] else c ∷ []
keep_unless_slash c (d ∷ ds) = c ∷ d ∷ ds

-- `replace(/\/+$/, '')`
unfoldable pub strip_trailing_slashes : Text → Text
strip_trailing_slashes [] = []
strip_trailing_slashes (c ∷ cs) = keep_unless_slash c (strip_trailing_slashes cs)

-- The root stays a slash.
abbrev pub floor_at_root : Text → Text
floor_at_root [] = slash ∷ []
floor_at_root (c ∷ cs) = c ∷ cs

unfoldable pub strip_separators : Text → Text
strip_separators normalized =
    if ltb 1 (length normalized) && ends_with_slash normalized
    then floor_at_root (strip_trailing_slashes normalized)
    else normalized

unfoldable pub normalize_for_compare : Text → Bool → Text
normalize_for_compare value case_insensitive =
    let normalized = strip_separators (map unify_separator value) in
    if case_insensitive then map lower normalized else normalized

unfoldable pub paths_equal_for_host : Text → Text → Bool → Bool
paths_equal_for_host left right case_insensitive =
    text_eq (normalize_for_compare left case_insensitive)
      (normalize_for_compare right case_insensitive)

pub with_separator : Text → Text
with_separator parent = if ends_with_slash parent then parent else parent ++ slash ∷ []

pub is_path_within : Text → Text → Bool → Bool
is_path_within candidate parent case_insensitive =
    let candidate_normalized = normalize_for_compare candidate case_insensitive in
    let parent_normalized = normalize_for_compare parent case_insensitive in
    if text_eq candidate_normalized parent_normalized
    then true
    else starts_with candidate_normalized (with_separator parent_normalized)
