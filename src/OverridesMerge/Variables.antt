-- ===== src/OverridesMerge/Variables.antt =====
-- src/overrides_merge.ts: which environment variable has which value.
use patchlab.Common.{
  Text, text_eq, text_eq_iff, has, Assoc, get, put, get-put, Option, none, some, first_some,
  if◌then◌else◌, Bool, true, false, List, [], ◌∷◌, map, arith, ◌≡◌, refl, ap, ◌∙◌, Bool-cases, inl,
  inr, Option-cases,
}
use patchlab.OverridesMerge.{
  EnvironmentVariableRequirement, keep, set_all, keyed, explicit_variable, key_of, environment_map,
}

-- The value of the last entry for a key.
abbrev pub last_entry : {V : Type 0} → Assoc V → Text → Option V
last_entry [] k = none
last_entry ((j, v) ∷ entries) k =
    first_some (last_entry entries k) (if text_eq j k then some v else none)

get-set_all :
    {V : Type 0} (m entries : Assoc V) (k : Text)
    → get (set_all m entries) k ≡ first_some (last_entry entries k) (get m k)
unfolding set_all
get-set_all m [] k = refl
get-set_all m ((j, v) ∷ entries) k =
    get-set_all (put m j v) entries k
    ∙ (rw (get-put m j k v) (by_cases v (get m k) (last_entry entries k) (text_eq j k)))
  where
    by_cases :
        {W : Type 0} (w : W) (o : Option W) (last : Option W) (b : Bool)
        → first_some last (if b then some w else o)
          ≡ first_some (first_some last (if b then some w else none)) o
    by_cases w o none true = refl
    by_cases w o none false = refl
    by_cases w o (some u) b = refl

first_some-none : {V : Type 0} (o : Option V) → first_some o none ≡ o
first_some-none none = refl
first_some-none (some v) = refl

last_entry-keep :
    (explicit ignore : List Text) (rs : List EnvironmentVariableRequirement) (k : Text)
    → has explicit k ≡ false
    → last_entry (map keyed (keep (λ r. r.key) explicit ignore rs)) k
      ≡ (if has ignore k then none else last_entry (map keyed rs) k)
unfolding keep
last_entry-keep explicit ignore [] k h = ground arith
last_entry-keep explicit ignore (r ∷ rs) k h =
    let rest = last_entry-keep explicit ignore rs k h in
    elim (Bool-cases (text_eq (r.key) k)) [
      | inl e ↦
          let q = (text_eq_iff (r.key) k).0 e in
          ground (arith, e, rest, ap (λ t. has explicit t) q, ap (λ t. has ignore t) q)
      | inr e ↦ ground (
        arith,
        e,
        rest,
        first_some-none (last_entry (map keyed rs) k),
        first_some-none (last_entry (map keyed (keep (λ q. q.key) explicit ignore rs)) k),
      )
    ]

last_entry-explicit :
    (entries : Assoc Text) (k : Text)
    → has (map key_of entries) k ≡ true
    → (r : EnvironmentVariableRequirement) × (last_entry (map explicit_variable entries) k ≡ some r)
unfolding has
last_entry-explicit [] k h = cc
last_entry-explicit ((j, v) ∷ entries) k h =
    elim (Option-cases (last_entry (map explicit_variable entries) k)) [
      | inl e ↦ elim (Bool-cases (text_eq j k)) [
        | inl q ↦ ((explicit_variable (j, v)).1, rw (e, q) refl)
        | inr q ↦
            let (r, found) = last_entry-explicit entries k (ground (arith, h, q)) in
            absurd (ground (arith, e, found))
      ]
      | inr (r, e) ↦ (r, rw e refl)
    ]

-- The environment map holds, for each key, the last explicit value, and for a key that is
-- not explicit the last detected requirement, unless the key is ignored.
pub get-environment_map :
    (detected : List EnvironmentVariableRequirement) (explicit : Assoc Text) (ignore : List Text)
    (k : Text)
    → get (environment_map detected explicit ignore) k
      ≡ first_some
          (last_entry (map explicit_variable explicit) k)
          (if has ignore k then none else last_entry (map keyed detected) k)
unfolding environment_map get
get-environment_map detected explicit ignore k = elim (Bool-cases (has (map key_of explicit) k)) [
  | inl e ↦
      let (r, found) = last_entry-explicit explicit k e in
      get-set_all _ (map explicit_variable explicit) k ∙ rw found refl
  | inr e ↦
      get-set_all _ (map explicit_variable explicit) k
      ∙ rw (get-set_all [] (map keyed (keep (λ r. r.key) (map key_of explicit) ignore detected)) k)
          (ap (λ o. first_some (last_entry (map explicit_variable explicit) k) o)
            (first_some-none _ ∙ last_entry-keep (map key_of explicit) ignore detected k e))
]
