-- ===== src/PathContainment/Order.antt =====
-- Containment of src/path_containment.ts, on the paths as they are compared.
use patchlab.Common.{
  ℕ, ◌+◌, ◌≡◌, ◌≢◌, ◌↔◌, ◌⊎◌, inl, inr, refl, ap, sym, ◌∙◌, Text, text_eq, text_eq_iff, starts_with,
  starts_with_split, starts_with-append, drop, length, length-append, Bool, true, [], ◌∷◌, ◌++◌,
  append_assoc, append-nil, arith, Bool-cases,
}
use patchlab.PathContainment.{
  slash, ends_with_slash, normalize_for_compare, paths_equal_for_host, with_separator,
  is_path_within,
}

-- The candidate is the parent, or goes on behind the parent's separator.
abbrev pub Below : Text → Text → Type 0
Below candidate parent =
    (candidate ≡ parent) ⊎ ((rest : Text) × (candidate ≡ with_separator parent ++ rest))

pub within_iff :
    (candidate parent : Text) (ci : Bool)
    → (is_path_within candidate parent ci ≡ true)
      ↔ Below (normalize_for_compare candidate ci) (normalize_for_compare parent ci)
unfolding is_path_within
within_iff candidate parent ci =
    let c = normalize_for_compare candidate ci in
    let p = normalize_for_compare parent ci in
    elim (Bool-cases (text_eq c p)) [
      | inl e ↦ (λ _. inl ((text_eq_iff c p).0 e), λ _. rw e)
      | inr e ↦ (
        λ h. inr (
          drop (length (with_separator p)) c,
          starts_with_split c (with_separator p) (ground (arith, e, h)),
        ),
        λ b. rw e (prefix_of_below c p (λ q. ground (arith, e, text_eq_iff c p, q)) b),
      )
    ]
  where
    prefix_of_below : (c p : Text) → c ≢ p → Below c p → starts_with c (with_separator p) ≡ true
    prefix_of_below c p n (inl q) = absurd (n q)
    prefix_of_below c p n (inr (rest, q)) = rw q (starts_with-append (with_separator p) rest)

with_separator_grows : (p : Text) → (extra : Text) × (with_separator p ≡ p ++ extra)
unfolding with_separator
with_separator_grows p = elim (Bool-cases (ends_with_slash p)) [
  | inl e ↦ ([], rw e (sym (append-nil p)))
  | inr e ↦ (slash ∷ [], rw e)
]

length_zero : (w : Text) → length w ≡ 0 → w ≡ []
length_zero [] h = refl
length_zero (c ∷ w) h = ground (arith, h)

Below-antisymm : (a b : Text) → Below a b → Below b a → a ≡ b
Below-antisymm a b (inl p) q = p
Below-antisymm a b (inr r) (inl q) = sym q
Below-antisymm a b (inr (r, p)) (inr (s, q)) =
    let (more, grows) = with_separator_grows b in
    let (extra, grows_a) = with_separator_grows a in
    let here : a ≡ b ++ (more ++ r) = p ∙ ap (λ w. w ++ r) grows ∙ append_assoc b more r in
    let there : b ≡ a ++ (extra ++ s) = q ∙ ap (λ w. w ++ s) grows_a ∙ append_assoc a extra s in
    let nothing : length (more ++ r) ≡ 0 =
      no_growth (length a) (length b) _ _ (ap length here ∙ length-append b (more ++ r))
        (ap length there ∙ length-append a (extra ++ s)) in
    here ∙ ap (λ w. b ++ w) (length_zero (more ++ r) nothing) ∙ append-nil b
  where
    no_growth : (m n i j : ℕ) → m ≡ n + i → n ≡ m + j → i ≡ 0
    no_growth m n i j p q = omega arith

-- Two paths lie within each other exactly when they are equal for the host.
pub is_path_within-paths_equal_for_host :
    (a b : Text) (ci : Bool)
    → ((is_path_within a b ci ≡ true) × (is_path_within b a ci ≡ true))
      ↔ (paths_equal_for_host a b ci ≡ true)
unfolding paths_equal_for_host
is_path_within-paths_equal_for_host a b ci =
    let same = text_eq_iff (normalize_for_compare a ci) (normalize_for_compare b ci) in
    (
      λ both.
          same.1 (Below-antisymm _ _ ((within_iff a b ci).0 both.0) ((within_iff b a ci).0 both.1)),
      λ e. ((within_iff a b ci).1 (inl (same.0 e)), (within_iff b a ci).1 (inl (sym (same.0 e)))),
    )
