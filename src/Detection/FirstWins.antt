-- ===== src/Detection/FirstWins.antt =====
-- src/detect/pipeline.ts: the first requirement with a key wins, and each key stands once.
use patchlab.Common.{
  ◌≡◌, refl, sym, ap, ◌∙◌, inl, inr, Text, text_eq, text_eq_iff, has, IsDistinct, IsDistinct-append,
  get, get-put, List, [], ◌∷◌, ◌++◌, map, find_first, Option, none, some, first_some, Bool, true,
  false, if◌then◌else◌, arith, Bool-cases,
}
use patchlab.OverridesMerge.{EnvironmentVariableRequirement}
use patchlab.Detection.{
  Bucket, dedupe_by_key, Variables, conflict, conflicts, keep_existing, merge_environment_variable,
}

module _ {A : Type 0} (name_of : A → Text) where
  abbrev pub first_named : Text → List A → Option A
  first_named k xs = find_first (λ x. text_eq (name_of x) k) xs

  -- The target has the first of the items with each key, and no key twice.
  pub record IsFirstWins (items target : List A) : Type 0 where
    pub first : (k : Text) → first_named k target ≡ first_named k items
    pub distinct : IsDistinct (map name_of target)

  first_named-append :
      (k : Text) (xs ys : List A)
      → first_named k (xs ++ ys) ≡ first_some (first_named k xs) (first_named k ys)
  first_named-append k [] ys = refl
  first_named-append k (x ∷ xs) ys = ground (arith, first_named-append k xs ys)

  map-append : (xs ys : List A) → map name_of (xs ++ ys) ≡ map name_of xs ++ map name_of ys
  map-append [] ys = refl
  map-append (x ∷ xs) ys = ap (λ zs. name_of x ∷ zs) (map-append xs ys)

  has-first_named :
      (k : Text) (xs : List A) → has (map name_of xs) k ≡ false → first_named k xs ≡ none
  unfolding has
  has-first_named k [] h = refl
  has-first_named k (x ∷ xs) h = ground (arith, h, has-first_named k xs)

  first_named-has :
      (k : Text) (xs : List A)
      → has (map name_of xs) k ≡ true
      → (x : A) × (first_named k xs ≡ some x)
  unfolding has
  first_named-has k [] h = cc
  first_named-has k (x ∷ xs) h = elim (Bool-cases (text_eq (name_of x) k)) [
    | inl e ↦ (x, rw e refl)
    | inr e ↦ rw e (first_named-has k xs (ground (arith, h, e)))
  ]

  -- The target's keys are those of the set, and the first of the items so far win.
  abbrev pub Wins : List A → List Text → List A → Type 0
  Wins items seen target = (seen ≡ map name_of target) × IsFirstWins items target

  absorbed :
      (k : Text) (items target : List A) (x : A)
      → IsFirstWins items target
      → has (map name_of target) (name_of x) ≡ true
      → first_named k target ≡ first_named k (items ++ x ∷ [])
  absorbed k items target x w h =
      let (y, found) = first_named-has (name_of x) target h in
      ground (
        arith,
        w.first k,
        w.first (name_of x),
        found,
        first_named-append k items (x ∷ []),
        text_eq_iff (name_of x) k,
        λ (q : name_of x ≡ k). ap (λ j. first_named j items) q,
      )

  IsFirstWins-push :
      (items target : List A) (x : A)
      → IsFirstWins items target
      → has (map name_of target) (name_of x) ≡ false
      → IsFirstWins (items ++ x ∷ []) (target ++ x ∷ [])
  IsFirstWins-push items target x w h = record {
    first = λ k.
        first_named-append k target (x ∷ [])
        ∙ (ap (λ o. first_some o (first_named k (x ∷ []))) (w.first k)
            ∙ sym (first_named-append k items (x ∷ [])));
    distinct =
        rw (map-append target (x ∷ []))
          (IsDistinct-append (map name_of target) (name_of x) w.distinct h);
  }

  pub Wins-dedupe_by_key :
      (items : List A) (x : A) (b : Bucket A)
      → Wins items b.seen b.target
      → Wins
          (items ++ x ∷ [])
          (dedupe_by_key x (name_of x) b).seen
          (dedupe_by_key x (name_of x) b).target
  unfolding dedupe_by_key
  Wins-dedupe_by_key items x b (keys, w) = decide (has b.seen (name_of x)) refl
    where
      decide :
          (t : Bool)
          → has b.seen (name_of x) ≡ t
          → Wins
              (items ++ x ∷ [])
              (if t
                then b
                else record { seen = b.seen ++ name_of x ∷ []; target = b.target ++ x ∷ [] }).seen
              (if t
                then b
                else record { seen = b.seen ++ name_of x ∷ []; target = b.target ++ x ∷ [] }).target
      decide true e = (
        keys,
        record {
          first = λ k. absorbed k items b.target x w (ap (λ s. has s (name_of x)) (sym keys) ∙ e);
          distinct = w.distinct;
        },
      )
      decide false e = (
        ap (λ s. s ++ name_of x ∷ []) keys ∙ sym (map-append b.target (x ∷ [])),
        IsFirstWins-push items b.target x w (ap (λ s. has s (name_of x)) (sym keys) ∙ e),
      )

none-ne-some : {A : Type 0} {a : A} → ◌≡◌ {A = Option A} none (some a) → ⊥
none-ne-some h = cc

-- The variables by key are those of the target, and the first of the items so far win.
abbrev pub VariablesWin : List EnvironmentVariableRequirement → Variables → Type 0
VariablesWin items v =
    ((k : Text) → get v.seen k ≡ first_named (λ r. r.key) k v.target)
    × IsFirstWins (λ r. r.key) items v.target

pub VariablesWin-merge :
    (items : List EnvironmentVariableRequirement) (r : EnvironmentVariableRequirement)
    (v : Variables)
    → VariablesWin items v
    → VariablesWin (items ++ r ∷ []) (merge_environment_variable r v)
unfolding merge_environment_variable
VariablesWin-merge items r v (keys, w) = decide (get v.seen r.key) refl
  where
    is_known :
        (o : EnvironmentVariableRequirement)
        → first_named (λ r. r.key) r.key v.target ≡ some o
        → has (map (λ r. r.key) v.target) r.key ≡ true
    is_known o e = elim (Bool-cases (has (map (λ r. r.key) v.target) r.key)) [
      | inl t ↦ t
      | inr t ↦ absurd (none-ne-some (sym (has-first_named (λ r. r.key) r.key v.target t) ∙ e))
    ]

    is_new :
        first_named (λ r. r.key) r.key v.target ≡ none
        → has (map (λ r. r.key) v.target) r.key ≡ false
    is_new e = elim (Bool-cases (has (map (λ r. r.key) v.target) r.key)) [
      | inl t ↦
          let (x, found) = first_named-has (λ r. r.key) r.key v.target t in
          absurd (none-ne-some (sym e ∙ found))
      | inr t ↦ t
    ]

    unchanged :
        (o : EnvironmentVariableRequirement)
        → first_named (λ r. r.key) r.key v.target ≡ some o
        → IsFirstWins (λ r. r.key) (items ++ r ∷ []) v.target
    unchanged o found = record {
      first = λ k. absorbed (λ r. r.key) k items v.target r w (is_known o found);
      distinct = w.distinct;
    }

    decide :
        (o : Option EnvironmentVariableRequirement)
        → get v.seen r.key ≡ o
        → VariablesWin (items ++ r ∷ []) (keep_existing r v o)
    decide (some existing) e = kept (conflicts existing r)
      where
        kept :
            (t : Bool)
            → VariablesWin (items ++ r ∷ []) (
                if t
                then record v {
                  warnings = v.warnings ++ conflict r.key r.source existing.source ∷ [];
                }
                else v)
        kept true = (keys, unchanged existing (sym (keys r.key) ∙ e))
        kept false = (keys, unchanged existing (sym (keys r.key) ∙ e))
    decide none e = (
      λ k. ground (
        arith,
        get-put v.seen r.key k r,
        keys k,
        e,
        first_named-append (λ r. r.key) k v.target (r ∷ []),
        text_eq_iff r.key k,
        λ (q : r.key ≡ k). ap (λ j. get v.seen j) q,
      ),
      IsFirstWins-push (λ r. r.key) items v.target r w (is_new (sym (keys r.key) ∙ e)),
    )
