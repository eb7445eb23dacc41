-- ===== src/OverridesMerge/Mounts.antt =====
-- src/overrides_merge.ts: the two parts of a mount string.
use patchlab.Common.{
  ℕ, Text, cut_cons, Option, none, some, ok, >>=-eq-ok, ◌==◌, ◌&&◌, List, [], ◌∷◌, ◌++◌, map, arith,
  ◌≡◌, ap, Bool-cases, inl, inr, Option-cases,
}
use patchlab.OverridesMerge.{
  VolumeMountRequirement, colon, is_letter, split_at_colon, separate, split_mount, mount_string,
  explicit_mounts,
}

-- A cut that went on behind a code unit.
cut_cons-eq-some :
    (x : ℕ) (o : Option (Text × Text)) (h c : Text)
    → cut_cons x o ≡ some (h, c)
    → (h' : Text) × (o ≡ some (h', c)) × (h ≡ x ∷ h')
cut_cons-eq-some x none h c e = cc
cut_cons-eq-some x (some (a, b)) h c e = (a, cc, cc)

split_at_colon_joins : (m h c : Text) → split_at_colon m ≡ some (h, c) → m ≡ h ++ (colon ∷ c)
unfolding split_at_colon
split_at_colon_joins [] h c e = cc
split_at_colon_joins (x ∷ xs) h c e = elim (Bool-cases (x == colon)) [
  | inl q ↦ ground (arith, e, q)
  | inr q ↦
      let (h', found, eq) = cut_cons-eq-some x (split_at_colon xs) h c (ground (arith, e, q)) in
      rw eq (ap (λ w. x ∷ w) (split_at_colon_joins xs h' c found))
]

separate_joins : (m h c : Text) → separate m ≡ some (h, c) → m ≡ h ++ (colon ∷ c)
unfolding separate
separate_joins [] h c e = cc
separate_joins (x ∷ []) h c e = split_at_colon_joins (x ∷ []) h c e
separate_joins (x ∷ y ∷ rest) h c e = elim (Bool-cases (is_letter x && y == colon)) [
  | inl q ↦
      let (h', found, eq) = cut_cons-eq-some x (cut_cons y (split_at_colon rest)) h c (rw q at e) in
      let (h'', found', eq') = cut_cons-eq-some y (split_at_colon rest) h' c found in
      rw (eq, eq') (ap (λ w. x ∷ y ∷ w) (split_at_colon_joins rest h'' c found'))
  | inr q ↦ split_at_colon_joins (x ∷ y ∷ rest) h c (rw q at e)
]

-- A mount string that splits is the host part, a colon, and the container part.
pub split_mount_joins : (m h c : Text) → split_mount m ≡ ok (h, c) → m ≡ h ++ (colon ∷ c)
unfolding split_mount
split_mount_joins m h c e = elim (Option-cases (separate m)) [
  | inl q ↦ absurd (ground (arith, q, e))
  | inr (parts, q) ↦ separate_joins m h c (ground (arith, q, e))
]

pub explicit_mounts_named :
    (ms : List Text) (added : List VolumeMountRequirement)
    → explicit_mounts ms ≡ ok added
    → map mount_string added ≡ ms
unfolding explicit_mounts
explicit_mounts_named [] added e = ground (arith, e)
explicit_mounts_named (m ∷ ms) added e =
    let (parts, p, e') = >>=-eq-ok (split_mount m) _ e in
    let (rest, q, e'') = >>=-eq-ok (explicit_mounts ms) _ e' in
    ground (arith, e'', explicit_mounts_named ms rest q, split_mount_joins m (parts.0) (parts.1) p)
