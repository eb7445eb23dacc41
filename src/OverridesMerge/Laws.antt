-- ===== src/OverridesMerge/Laws.antt =====
-- src/overrides_merge.ts: what is in a merge.
use patchlab.Common.{
  Text, text_eq, text_eq_iff, has, has-append, Result, ok, >>=-eq-ok, or_else, Bool, not, ◌&&◌,
  ◌||◌, List, [], ◌∷◌, ◌++◌, map, filterb, arith, ◌≡◌, refl, ap, Bool-cases, inl, inr,
}
use patchlab.OverridesMerge.{
  DetectedRequirements, PatchlabOverrides, add_to_set, set_of, keep, missing, mount_string,
  explicit_package, explicit_npm_package, explicit_mounts, required, ignored, explicit_mount_paths,
  merge_requirements,
}
use patchlab.OverridesMerge.Mounts.{explicit_mounts_named}

-- A name is wanted where it is explicit, or detected and not ignored.
abbrev wanted : List Text → List Text → List Text → Text → Bool
wanted explicit ignore detected k = has explicit k || (has detected k && not (has ignore k))

has-add_to_set :
    (set xs : List Text) (k : Text) → has (add_to_set set xs) k ≡ (has set k || has xs k)
unfolding add_to_set has
has-add_to_set set [] k = ground arith
has-add_to_set set (x ∷ xs) k = ground (
  arith,
  has-add_to_set set xs k,
  has-add_to_set (set ++ x ∷ []) xs k,
  has-append set (x ∷ []) k,
  text_eq_iff x k,
)

has-set_of : (xs : List Text) (k : Text) → has (set_of xs) k ≡ has xs k
unfolding set_of has
has-set_of xs k = has-add_to_set [] xs k

has-filterb :
    (p : Text → Bool) (xs : List Text) (k : Text) → has (filterb p xs) k ≡ (has xs k && p k)
unfolding has
has-filterb p [] k = refl
has-filterb p (x ∷ xs) k = elim (Bool-cases (text_eq x k)) [
  | inl e ↦ rw (← (text_eq_iff x k).0 e) ground (arith, text_eq_iff x x, has-filterb p xs x)
  | inr e ↦ ground (arith, e, has-filterb p xs k)
]

map-append : {A : Type 0} (f : A → Text) (xs ys : List A) → map f (xs ++ ys) ≡ map f xs ++ map f ys
map-append f [] ys = refl
map-append f (x ∷ xs) ys = ap (λ zs. f x ∷ zs) (map-append f xs ys)

map-map_section :
    {A : Type 0} (name_of : A → Text) (make : Text → A)
    (section : (k : Text) → name_of (make k) ≡ k) (ks : List Text)
    → map name_of (map make ks) ≡ ks
map-map_section name_of make section [] = refl
map-map_section name_of make section (k ∷ ks) =
    let rest = map-map_section name_of make section ks in rw (section k) (ap (λ zs. k ∷ zs) rest)

module _ {A : Type 0} (name_of : A → Text) (explicit ignore : List Text) where
  has-keep :
      (ds : List A) (k : Text)
      → has (map name_of (keep name_of explicit ignore ds)) k
        ≡ (has (map name_of ds) k && (has explicit k || not (has ignore k)))
  unfolding keep has
  has-keep [] k = refl
  has-keep (d ∷ ds) k = elim (Bool-cases (text_eq (name_of d) k)) [
    | inl e ↦
        rw (← (text_eq_iff (name_of d) k).0 e) ground
          (arith, text_eq_iff (name_of d) (name_of d), has-keep ds (name_of d))
    | inr e ↦ ground (arith, e, has-keep ds k)
  ]

  has-missing :
      (kept : List A) (k : Text)
      → has (missing name_of explicit kept) k ≡ (has explicit k && not (has (map name_of kept) k))
  unfolding missing
  has-missing kept k = has-filterb _ explicit k

  has-merged :
      (ds added : List A) (k : Text)
      → map name_of added ≡ missing name_of explicit (keep name_of explicit ignore ds)
      → has (map name_of (keep name_of explicit ignore ds ++ added)) k
        ≡ wanted explicit ignore (map name_of ds) k
  has-merged ds added k names =
      let kept = keep name_of explicit ignore ds in
      ground (
        arith,
        ap (λ xs. has xs k) (map-append name_of kept added),
        has-append (map name_of kept) (map name_of added) k,
        ap (λ xs. has xs k) names,
        has-missing kept k,
        has-keep ds k,
      )

-- The names in each part of a merge are the wanted ones.
pub record IsMerged (detected merged : DetectedRequirements) (overrides : PatchlabOverrides)
    : Type 0 where
  packages_wanted :
      (k : Text)
      → has (map (λ r. r.capability) (merged.system_packages)) k
        ≡ wanted
            (or_else ((required overrides).system_packages) [])
            (or_else (overrides.ignore_detected) [])
            (map (λ r. r.capability) (detected.system_packages))
            k
  mounts_wanted :
      (k : Text)
      → has (map mount_string (merged.volume_mounts)) k
        ≡ wanted
            (or_else ((required overrides).volume_mounts) [])
            (or_else (overrides.ignore_detected) [])
            (map mount_string (detected.volume_mounts))
            k
  npm_wanted :
      (k : Text)
      → has (map (λ r. r.npm_package) (merged.npm_packages)) k
        ≡ wanted
            (or_else ((required overrides).npm_packages) [])
            (or_else (overrides.ignore_detected) [])
            (map (λ r. r.npm_package) (detected.npm_packages))
            k

has-set_of-merged :
    {A : Type 0} (name_of : A → Text) (explicit ignore : List Text) (ds added : List A) (k : Text)
    → map name_of added
      ≡ missing name_of (set_of explicit) (keep name_of (set_of explicit) (set_of ignore) ds)
    → has (map name_of (keep name_of (set_of explicit) (set_of ignore) ds ++ added)) k
      ≡ wanted explicit ignore (map name_of ds) k
has-set_of-merged name_of explicit ignore ds added k names = ground (
  arith,
  has-merged name_of (set_of explicit) (set_of ignore) ds added k names,
  has-set_of explicit k,
  has-set_of ignore k,
)

ok_injective : {E A : Type 0} (a b : A) → ◌≡◌ {A = Result E A} (ok a) (ok b) → a ≡ b
ok_injective a b h = cc

-- In a merge that succeeds, a package, a mount or an npm package is there exactly when it is
-- explicit, or detected and not ignored.
pub merge_requirements-IsMerged :
    (detected merged : DetectedRequirements) (overrides : PatchlabOverrides)
    → merge_requirements detected overrides ≡ ok merged
    → IsMerged detected merged overrides
unfolding merge_requirements
merge_requirements-IsMerged detected merged overrides h =
    let ignore = or_else (overrides.ignore_detected) [] in
    let r = required overrides in
    let (added, p, q) =
      >>=-eq-ok
        (explicit_mounts (
          missing mount_string (explicit_mount_paths overrides) (
            keep mount_string (explicit_mount_paths overrides) (ignored overrides)
              (detected.volume_mounts))))
        _ h in
    rw (← ok_injective _ merged q) (record {
      packages_wanted = λ k.
          has-set_of-merged (λ r. r.capability) (or_else (r.system_packages) []) ignore
            (detected.system_packages) _ k (map-map_section _ explicit_package (λ _. refl) _);
      mounts_wanted = λ k.
          has-set_of-merged mount_string (or_else (r.volume_mounts) []) ignore
            (detected.volume_mounts) added k (explicit_mounts_named _ added p);
      npm_wanted = λ k.
          has-set_of-merged (λ r. r.npm_package) (or_else (r.npm_packages) []) ignore
            (detected.npm_packages) _ k (map-map_section _ explicit_npm_package (λ _. refl) _);
    })
