-- ===== src/Manifest/Stored.antt =====
-- The path that src/manifest.ts stores for a legacy source is, for the host, the joined path.
use patchlab.Common.{
  ◌≡◌, refl, ap, ℕ, Text, text_eq_refl, map, Bool, true, false, ◌&&◌, [], ◌∷◌, ltb, ◌==◌,
  if◌then◌else◌, length, arith, All, not, join,
}
use patchlab.NodePath.{path_join, normalize, normalized, is_absolute, normalized_segments}
use patchlab.PathContainment.{
  slash, unify_separator, ends_with_slash, keep_unless_slash, strip_trailing_slashes, floor_at_root,
  strip_separators, normalize_for_compare, paths_equal_for_host,
}
use patchlab.Manifest.Sources.{normalize_for_storage}

ends_with_slash-keep_unless_slash :
    (c : ℕ) (r : Text) → ends_with_slash r ≡ false → ends_with_slash (keep_unless_slash c r) ≡ false
unfolding ends_with_slash
ends_with_slash-keep_unless_slash c [] h = ground arith
ends_with_slash-keep_unless_slash c (d ∷ ds) h = h

ends_with_slash-strip_trailing_slashes :
    (w : Text) → ends_with_slash (strip_trailing_slashes w) ≡ false
unfolding ends_with_slash strip_trailing_slashes
ends_with_slash-strip_trailing_slashes [] = refl
ends_with_slash-strip_trailing_slashes (c ∷ w) =
    ends_with_slash-keep_unless_slash c (strip_trailing_slashes w)
      (ends_with_slash-strip_trailing_slashes w)

-- Whether `strip_separators` has something to strip
abbrev strippable : Text → Bool
strippable w = ltb 1 (length w) && ends_with_slash w

strippable-floor_at_root :
    (w : Text) → ends_with_slash w ≡ false → strippable (floor_at_root w) ≡ false
strippable-floor_at_root [] h = refl
strippable-floor_at_root (c ∷ w) h = ground (arith, h)

strippable-strip_separators : (w : Text) → strippable (strip_separators w) ≡ false
unfolding strip_separators
strippable-strip_separators w = decide (strippable w) refl
  where
    decide :
        (t : Bool)
        → strippable w ≡ t
        → strippable (if t then floor_at_root (strip_trailing_slashes w) else w) ≡ false
    decide true e =
        strippable-floor_at_root (strip_trailing_slashes w)
          (ends_with_slash-strip_trailing_slashes w)
    decide false e = e

strip_separators_stripped : (v : Text) → strippable v ≡ false → strip_separators v ≡ v
unfolding strip_separators
strip_separators_stripped v h = rw h refl

strip_separators_idem : (w : Text) → strip_separators (strip_separators w) ≡ strip_separators w
strip_separators_idem w =
    strip_separators_stripped (strip_separators w) (strippable-strip_separators w)

-- Every code unit is its own unified separator.
abbrev IsUnified : Text → Type 0
IsUnified = All (λ c. unify_separator c ≡ c)

map-unify_separator-IsUnified : (w : Text) → IsUnified (map unify_separator w)
map-unify_separator-IsUnified [] = tt
map-unify_separator-IsUnified (c ∷ w) = (ground arith, map-unify_separator-IsUnified w)

map-unify_separator_fixed : (w : Text) → IsUnified w → map unify_separator w ≡ w
map-unify_separator_fixed [] h = refl
map-unify_separator_fixed (c ∷ w) (e, h) = rw e (ap (λ v. c ∷ v) (map-unify_separator_fixed w h))

keep_unless_slash-IsUnified :
    (c : ℕ) (r : Text) → unify_separator c ≡ c → IsUnified r → IsUnified (keep_unless_slash c r)
keep_unless_slash-IsUnified c [] e h = decide (c == slash)
  where
    decide : (t : Bool) → IsUnified (if t then [] else c ∷ [])
    decide true = tt
    decide false = (e, tt)
keep_unless_slash-IsUnified c (d ∷ ds) e h = (e, h)

strip_trailing_slashes-IsUnified : (w : Text) → IsUnified w → IsUnified (strip_trailing_slashes w)
unfolding strip_trailing_slashes
strip_trailing_slashes-IsUnified [] h = tt
strip_trailing_slashes-IsUnified (c ∷ w) (e, h) =
    keep_unless_slash-IsUnified c (strip_trailing_slashes w) e
      (strip_trailing_slashes-IsUnified w h)

strip_separators-IsUnified : (w : Text) → IsUnified w → IsUnified (strip_separators w)
unfolding strip_separators
strip_separators-IsUnified w h = decide (strippable w)
  where
    floored : (v : Text) → IsUnified v → IsUnified (floor_at_root v)
    floored [] k = (refl, tt)
    floored (c ∷ v) k = k

    decide : (t : Bool) → IsUnified (if t then floor_at_root (strip_trailing_slashes w) else w)
    decide true = floored (strip_trailing_slashes w) (strip_trailing_slashes-IsUnified w h)
    decide false = h

-- The stored form of a path that is not empty
normalize_for_storage-cons :
    (c : ℕ) (w : Text)
    → normalize_for_storage (c ∷ w) ≡ strip_separators (map unify_separator (c ∷ w))
unfolding normalize_for_storage strip_separators
normalize_for_storage-cons c w = decide (strippable (map unify_separator (c ∷ w)))
  where
    decide :
        (t : Bool)
        → floor_at_root (
            if t
            then strip_trailing_slashes (map unify_separator (c ∷ w))
            else map unify_separator (c ∷ w))
          ≡ (if t
              then floor_at_root (strip_trailing_slashes (map unify_separator (c ∷ w)))
              else map unify_separator (c ∷ w))
    decide true = refl
    decide false = refl

-- For the host, the stored form of a path that is not empty is that path.
stored_equal :
    (case_insensitive : Bool) (c : ℕ) (w : Text)
    → paths_equal_for_host (c ∷ w) (normalize_for_storage (c ∷ w)) case_insensitive ≡ true
unfolding paths_equal_for_host normalize_for_compare
stored_equal case_insensitive c w =
    let stripped = strip_separators (map unify_separator (c ∷ w)) in
    let unified =
      map-unify_separator_fixed stripped
        (strip_separators-IsUnified _ (map-unify_separator-IsUnified (c ∷ w))) in
    rw (normalize_for_storage-cons c w)
      (rw unified (rw (strip_separators_idem (map unify_separator (c ∷ w))) (text_eq_refl _)))

abbrev IsNonempty : Text → Type 0
IsNonempty path = (c : ℕ) × (rest : Text) × (path ≡ c ∷ rest)

normalized-IsNonempty :
    (absolute trailing : Bool) (text : Text) → IsNonempty (normalized absolute trailing text)
normalized-IsNonempty true trailing [] = (slash, [], refl)
normalized-IsNonempty true trailing (c ∷ cs) = (slash, _, refl)
normalized-IsNonempty false true [] = (b'.', _, refl)
normalized-IsNonempty false false [] = (b'.', [], refl)
normalized-IsNonempty false trailing (c ∷ cs) = (c, _, refl)

normalize-IsNonempty : (path : Text) → IsNonempty (normalize path)
unfolding normalize
normalize-IsNonempty [] = (b'.', [], refl)
normalize-IsNonempty (c ∷ cs) =
    normalized-IsNonempty (is_absolute (c ∷ cs)) (ends_with_slash (c ∷ cs))
      (join (slash ∷ []) (normalized_segments (not (is_absolute (c ∷ cs))) (c ∷ cs)))

path_join-IsNonempty : (a b : Text) → IsNonempty (path_join a b)
unfolding path_join
path_join-IsNonempty [] [] = (b'.', [], refl)
path_join-IsNonempty [] (d ∷ ds) = normalize-IsNonempty (d ∷ ds)
path_join-IsNonempty (c ∷ cs) [] = normalize-IsNonempty (c ∷ cs)
path_join-IsNonempty (c ∷ cs) (d ∷ ds) = normalize-IsNonempty _

pub paths_equal_for_host-normalize_for_storage :
    (case_insensitive : Bool) (a b : Text)
    → paths_equal_for_host (path_join a b) (normalize_for_storage (path_join a b)) case_insensitive
      ≡ true
paths_equal_for_host-normalize_for_storage case_insensitive a b =
    let (c, rest, e) = path_join-IsNonempty a b in rw e (stored_equal case_insensitive c rest)
