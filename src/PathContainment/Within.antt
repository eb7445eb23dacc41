-- ===== src/PathContainment/Within.antt =====
-- What containment of src/path_containment.ts means on the paths as they are given.
use patchlab.Common.{
  ℕ, suc, ◌≡◌, ◌≢◌, ◌↔◌, inl, inr, refl, ap, sym, ◌∙◌, Text, Bool, true, [], ◌∷◌, ◌++◌,
  append_assoc, Bool-cases,
}
use mathlib.Core.Path.{subst}
use patchlab.PathContainment.{
  ends_with_slash, strip_trailing_slashes, floor_at_root, normalize_for_compare, with_separator,
  is_path_within,
}
use patchlab.PathContainment.Order.{Below, within_iff}
use patchlab.PathContainment.Canonical.{
  folded, slashes, canonical, strip-append-slashes, slashes-snoc, stripped, strip-ends, ends_split,
  normalize_for_compare-eq-canonical, canonical_grows, strip-append-below, floor_separated,
  floor_idle,
}

-- Both are the same path up to separators at their ends, or the candidate goes on behind the parent
-- with a separator.
pub data IsWithin (candidate parent : Text) : Type 0 where
  same :
      (path : Text) (m n : ℕ)
      → candidate ≡ path ++ slashes m
      → parent ≡ path ++ slashes n
      → IsWithin candidate parent
  beneath :
      (path rest : Text) (n : ℕ)
      → candidate ≡ path ++ 47 ∷ rest
      → parent ≡ path ++ slashes n
      → IsWithin candidate parent

-- The parent's separator is one that its path has at the end, or one behind it.
with_separator_splits :
    (p : Text)
    → (path : Text) × (with_separator p ≡ path ++ 47 ∷ [])
      × ((n : ℕ) → (m : ℕ) × (p ++ slashes n ≡ path ++ slashes m))
unfolding with_separator
with_separator_splits p = elim (Bool-cases (ends_with_slash p)) [
  | inl e ↦
      let (path, eq) = ends_split p e in
      (
        path,
        rw e eq,
        λ n. (suc n, ap (λ t. t ++ slashes n) eq ∙ append_assoc path (47 ∷ []) (slashes n)),
      )
  | inr e ↦ (p, rw e refl, λ n. (n, refl))
]

Below-IsWithin : (c p : Text) → c ≢ [] → p ≢ [] → Below (canonical c) (canonical p) → IsWithin c p
Below-IsWithin c p c_some p_some (inl eq) =
    let (m, grows_c) = canonical_grows c c_some in
    let (n, grows_p) = canonical_grows p p_some in
    same (canonical p) m n (grows_c ∙ ap (λ t. t ++ slashes m) eq) grows_p
Below-IsWithin c p c_some p_some (inr (rest, eq)) =
    let (m, grows_c) = canonical_grows c c_some in
    let (n, grows_p) = canonical_grows p p_some in
    let (path, separated, parents) = with_separator_splits (canonical p) in
    let (k, parent) = parents n in
    beneath path (rest ++ slashes m) k
      (grows_c
        ∙ ap (λ t. t ++ slashes m) (eq ∙ ap (λ t. t ++ rest) separated)
        ∙ append_assoc (path ++ 47 ∷ []) rest (slashes m)
        ∙ append_assoc path (47 ∷ []) (rest ++ slashes m))
      (grows_p ∙ parent)

same-Below :
    (c p path : Text) (m n : ℕ)
    → c ≡ path ++ slashes m
    → p ≡ path ++ slashes n
    → Below (canonical c) (canonical p)
same-Below c p path m n eq_c eq_p = inl (
    ap canonical eq_c
    ∙ ap floor_at_root (strip-append-slashes path m)
    ∙ sym (ap canonical eq_p ∙ ap floor_at_root (strip-append-slashes path n)))

IsWithin-Below : (c p : Text) → IsWithin c p → Below (canonical c) (canonical p)
IsWithin-Below c p (same path m n eq_c eq_p) = same-Below c p path m n eq_c eq_p
IsWithin-Below c p (beneath path rest n eq_c eq_p) = decide (strip_trailing_slashes rest) refl
  where
    decide : (y : Text) → strip_trailing_slashes rest ≡ y → Below (canonical c) (canonical p)
    decide [] h =
        let (k, eq) = stripped rest in
        same-Below c p path (suc k) n
          (eq_c ∙ ap (λ t. path ++ 47 ∷ t) (eq ∙ ap (λ t. t ++ slashes k) h)) eq_p
    decide (d ∷ ds) h =
        let (k, grows) = stripped path in
        let y = strip_trailing_slashes rest in
        let shorter = strip_trailing_slashes path in
        let some_rest : y ≢ [] = λ e. let wrong = sym h ∙ e in cc in
        inr (
          slashes k ++ y,
          ap canonical eq_c
              ∙ ap floor_at_root (strip-append-below path rest some_rest)
              ∙ floor_idle path y
              ∙ ap (λ t. t ++ 47 ∷ y) grows
              ∙ append_assoc shorter (slashes k) (47 ∷ y)
              ∙ ap (λ t. shorter ++ t) (slashes-snoc k y)
              ∙ floor_separated shorter (slashes k ++ y) (strip-ends path)
              ∙ ap (λ t. with_separator t ++ (slashes k ++ y))
                  (sym (ap canonical eq_p ∙ ap floor_at_root (strip-append-slashes path n))),
        )

-- On paths that are not empty, `is_path_within` holds exactly where, with backslashes read as slashes
-- and, on a host that does not tell them apart, capitals as small letters, both are one path up to
-- slashes at their ends, or the candidate is the parent, its own last slashes aside, with a slash and
-- something behind. So a sibling whose name merely begins like the parent's is not within it.
pub is_path_within-IsWithin_iff :
    (candidate parent : Text) (case_insensitive : Bool)
    → candidate ≢ []
    → parent ≢ []
    → (is_path_within candidate parent case_insensitive ≡ true)
      ↔ IsWithin (folded case_insensitive candidate) (folded case_insensitive parent)
is_path_within-IsWithin_iff candidate parent ci c_some p_some =
    let c = folded ci candidate in
    let p = folded ci parent in
    let iff = within_iff candidate parent ci in
    let eq_c = normalize_for_compare-eq-canonical candidate ci c_some in
    let eq_p = normalize_for_compare-eq-canonical parent ci p_some in
    (
      λ h. Below-IsWithin c p (folded_some candidate c_some) (folded_some parent p_some) (
          subst (λ x. Below x (canonical p)) eq_c
            (subst (λ y. Below (normalize_for_compare candidate ci) y) eq_p (iff.0 h))),
      λ w. iff.1 (
          subst (λ x. Below x (normalize_for_compare parent ci)) (sym eq_c)
            (subst (λ y. Below (canonical c) y) (sym eq_p) (IsWithin-Below c p w))),
    )
  where
    folded_some : (x : Text) → x ≢ [] → folded ci x ≢ []
    folded_some [] h = absurd (h refl)
    folded_some (a ∷ rest) h = λ e. cc
