-- ===== src/PathContainment/Canonical.antt =====
-- What src/path_containment.ts makes of a path before it compares it.
use patchlab.Common.{
  ℕ, zero, suc, ◌≡◌, ◌≢◌, inl, inr, refl, ap, sym, ◌∙◌, Text, lower, Bool, true, false, [], ◌∷◌,
  ◌++◌, map, append_assoc, arith, ltb, length, ◌==◌, Bool-cases, if◌then◌else◌,
}
use patchlab.PathContainment.{
  unify_separator, ends_with_slash, keep_unless_slash, strip_trailing_slashes, floor_at_root,
  strip_separators, normalize_for_compare, with_separator,
}

-- One code unit as the host reads it: a backslash is a separator, and capitals count as small letters
-- where the host does not tell them apart.
abbrev pub folded_unit : Bool → ℕ → ℕ
folded_unit false c = if c == 92 then 47 else c
folded_unit true c = lower (if c == 92 then 47 else c)

abbrev pub folded : Bool → Text → Text
folded case_insensitive = map (folded_unit case_insensitive)

abbrev pub slashes : ℕ → Text
slashes zero = []
slashes (suc n) = 47 ∷ slashes n

-- What a path that is not empty is compared as
abbrev pub canonical : Text → Text
canonical x = floor_at_root (strip_trailing_slashes x)

strip_slashes : (n : ℕ) → strip_trailing_slashes (slashes n) ≡ []
unfolding strip_trailing_slashes
strip_slashes zero = refl
strip_slashes (suc n) = ap (keep_unless_slash 47) (strip_slashes n)

pub strip-append-slashes :
    (x : Text) (n : ℕ) → strip_trailing_slashes (x ++ slashes n) ≡ strip_trailing_slashes x
unfolding strip_trailing_slashes
strip-append-slashes [] n = strip_slashes n
strip-append-slashes (c ∷ cs) n = ap (keep_unless_slash c) (strip-append-slashes cs n)

pub slashes-snoc : (n : ℕ) (x : Text) → slashes n ++ 47 ∷ x ≡ 47 ∷ (slashes n ++ x)
slashes-snoc zero x = refl
slashes-snoc (suc n) x = ap (λ t. 47 ∷ t) (slashes-snoc n x)

-- A text is its stripped one with separators behind.
pub stripped : (x : Text) → (n : ℕ) × (x ≡ strip_trailing_slashes x ++ slashes n)
unfolding strip_trailing_slashes
stripped [] = (0, refl)
stripped (c ∷ cs) = let (n, eq) = stripped cs in kept (strip_trailing_slashes cs) n eq
  where
    kept :
        (rest : Text) (n : ℕ)
        → cs ≡ rest ++ slashes n
        → (m : ℕ) × (c ∷ cs ≡ keep_unless_slash c rest ++ slashes m)
    kept [] n eq = elim (Bool-cases (c == 47)) [
      | inl e ↦ (suc n, rw e (ap (λ t. c ∷ t) eq ∙ ap (λ d. d ∷ slashes n) (ground (arith, e))))
      | inr e ↦ (n, rw e (ap (λ t. c ∷ t) eq))
    ]
    kept (d ∷ ds) n eq = (n, ap (λ t. c ∷ t) eq)

pub strip-ends : (x : Text) → ends_with_slash (strip_trailing_slashes x) ≡ false
unfolding strip_trailing_slashes ends_with_slash
strip-ends [] = refl
strip-ends (c ∷ cs) = kept (strip_trailing_slashes cs) (strip-ends cs)
  where
    kept :
        (rest : Text)
        → ends_with_slash rest ≡ false
        → ends_with_slash (keep_unless_slash c rest) ≡ false
    kept [] h = elim (Bool-cases (c == 47)) [ inl e ↦ rw e refl | inr e ↦ rw e e ]
    kept (d ∷ ds) h = h

-- A text that ends without a separator is stripped of nothing.
strip_idle : (x : Text) → ends_with_slash x ≡ false → strip_trailing_slashes x ≡ x
unfolding strip_trailing_slashes ends_with_slash
strip_idle [] h = refl
strip_idle (c ∷ []) h = rw h refl
strip_idle (c ∷ d ∷ cs) h = ap (keep_unless_slash c) (strip_idle (d ∷ cs) h)

pub ends_split : (x : Text) → ends_with_slash x ≡ true → (path : Text) × (x ≡ path ++ 47 ∷ [])
unfolding ends_with_slash
ends_split [] h = cc
ends_split (c ∷ []) h = ([], ap (λ d. d ∷ []) (ground (arith, h)))
ends_split (c ∷ d ∷ cs) h = let (path, eq) = ends_split (d ∷ cs) h in (c ∷ path, ap (λ t. c ∷ t) eq)

strip_separators-eq-canonical : (x : Text) → x ≢ [] → strip_separators x ≡ canonical x
unfolding strip_separators strip_trailing_slashes ends_with_slash
strip_separators-eq-canonical [] h = absurd (h refl)
strip_separators-eq-canonical (c ∷ []) h = elim (Bool-cases (c == 47)) [
  | inl e ↦ rw e (ap (λ d. d ∷ []) (ground (arith, e)))
  | inr e ↦ rw e refl
]
strip_separators-eq-canonical (c ∷ d ∷ cs) h =
    let long : ltb 1 (suc (suc (length cs))) ≡ true = ground arith in
    elim (Bool-cases (ends_with_slash (d ∷ cs))) [
      | inl e ↦ rw (long, e) refl
      | inr e ↦ rw (long, e) (ap floor_at_root (sym (strip_idle (c ∷ d ∷ cs) e)))
    ]

lower_slash : (c : ℕ) → (lower c == 47) ≡ (c == 47)
lower_slash c = ground arith

map-lower-strip :
    (x : Text) → map lower (strip_trailing_slashes x) ≡ strip_trailing_slashes (map lower x)
unfolding strip_trailing_slashes
map-lower-strip [] = refl
map-lower-strip (c ∷ cs) =
    kept (strip_trailing_slashes cs) ∙ ap (keep_unless_slash (lower c)) (map-lower-strip cs)
  where
    kept :
        (rest : Text)
        → map lower (keep_unless_slash c rest) ≡ keep_unless_slash (lower c) (map lower rest)
    kept [] = elim (Bool-cases (c == 47)) [
      | inl e ↦ rw (lower_slash c, e) refl
      | inr e ↦ rw (lower_slash c, e) refl
    ]
    kept (d ∷ ds) = refl

map-lower-canonical : (x : Text) → map lower (canonical x) ≡ canonical (map lower x)
map-lower-canonical x = floored (strip_trailing_slashes x) ∙ ap floor_at_root (map-lower-strip x)
  where
    floored : (y : Text) → map lower (floor_at_root y) ≡ floor_at_root (map lower y)
    floored [] = refl
    floored (c ∷ cs) = refl

map_fuse : (x : Text) → map lower (map unify_separator x) ≡ folded true x
map_fuse [] = refl
map_fuse (c ∷ cs) = ap (λ t. lower (unify_separator c) ∷ t) (map_fuse cs)

pub normalize_for_compare-eq-canonical :
    (x : Text) (ci : Bool) → x ≢ [] → normalize_for_compare x ci ≡ canonical (folded ci x)
unfolding normalize_for_compare
normalize_for_compare-eq-canonical [] ci h = absurd (h refl)
normalize_for_compare-eq-canonical (c ∷ cs) false h =
    strip_separators-eq-canonical (map unify_separator (c ∷ cs)) (λ e. cc)
normalize_for_compare-eq-canonical (c ∷ cs) true h =
    ap (map lower) (strip_separators-eq-canonical (map unify_separator (c ∷ cs)) (λ e. cc))
    ∙ map-lower-canonical (map unify_separator (c ∷ cs))
    ∙ ap canonical (map_fuse (c ∷ cs))

-- A path that is not empty is its canonical one with separators behind.
pub canonical_grows : (x : Text) → x ≢ [] → (n : ℕ) × (x ≡ canonical x ++ slashes n)
canonical_grows x nonempty = let (n, eq) = stripped x in floored (strip_trailing_slashes x) n eq
  where
    floored : (y : Text) (n : ℕ) → x ≡ y ++ slashes n → (m : ℕ) × (x ≡ floor_at_root y ++ slashes m)
    floored [] zero eq = absurd (nonempty eq)
    floored [] (suc n) eq = (n, eq)
    floored (c ∷ cs) n eq = (n, eq)

pub strip-append-below :
    (path rest : Text)
    → strip_trailing_slashes rest ≢ []
    → strip_trailing_slashes (path ++ 47 ∷ rest) ≡ path ++ 47 ∷ strip_trailing_slashes rest
unfolding strip_trailing_slashes
strip-append-below [] rest some_rest = kept (strip_trailing_slashes rest) some_rest
  where
    kept : (y : Text) → y ≢ [] → keep_unless_slash 47 y ≡ 47 ∷ y
    kept [] h = absurd (h refl)
    kept (d ∷ ds) h = refl
strip-append-below (c ∷ path) rest some_rest =
    ap (keep_unless_slash c) (strip-append-below path rest some_rest) ∙ kept path
  where
    kept :
        (path : Text)
        → keep_unless_slash c (path ++ 47 ∷ strip_trailing_slashes rest)
          ≡ c ∷ path ++ 47 ∷ strip_trailing_slashes rest
    kept [] = refl
    kept (d ∷ ds) = refl

pub floor_separated :
    (y r : Text) → ends_with_slash y ≡ false → y ++ 47 ∷ r ≡ with_separator (floor_at_root y) ++ r
unfolding with_separator ends_with_slash
floor_separated [] r h = refl
floor_separated (c ∷ cs) r h = rw h (sym (append_assoc (c ∷ cs) (47 ∷ []) r))

pub floor_idle : (path y : Text) → floor_at_root (path ++ 47 ∷ y) ≡ path ++ 47 ∷ y
floor_idle [] y = refl
floor_idle (c ∷ path) y = refl
