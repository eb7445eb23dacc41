-- ===== src/SessionCommit/Basenames/Laws.antt =====
-- Which name each repository gets from `disambiguate_repository_basenames` of
-- src/branch/session_commit.ts.
use patchlab.Common.{
  ℕ, suc, ◌≡◌, refl, sym, ap, ◌∙◌, inl, inr, Text, text_eq, text_eq_iff, has, All, All-append,
  Assoc, get, put, get-put, List, [], ◌∷◌, ◌++◌, append-nil, append_assoc, filterb, length, ◌==◌,
  Option, none, some, or_else, true, false, if◌then◌else◌, arith, Bool-cases,
}
use mathlib.Core.Path.{subst}
use patchlab.SessionCommit.Basenames.{
  name_of, hashed, group_by_name, name_members, name_group, name_groups,
  disambiguate_repository_basenames,
}

module _ (basename : Text → Text) (realpath : Text → Option Text) (digest : Text → Text) where
  abbrev named : Text → Text
  named = name_of basename realpath digest

  abbrev with_hash : Text → Text → Text
  with_hash = hashed basename realpath digest

  -- Every group holds repositories of its name, and no name has two groups.
  abbrev Grouped : Assoc (List Text) → Type 0
  Grouped [] = Unit
  Grouped ((name, group) ∷ groups) =
      All (λ root. named root ≡ name) group × (get groups name ≡ none) × Grouped groups

  Grouped-get :
      (groups : Assoc (List Text)) (name : Text)
      → Grouped groups
      → All (λ root. named root ≡ name) (or_else (get groups name) [])
  unfolding get
  Grouped-get [] name h = tt
  Grouped-get ((n, group) ∷ groups) name (members, fresh, h) = elim (Bool-cases (text_eq n name)) [
    | inl e ↦ rw (e, ← (text_eq_iff n name).0 e) members
    | inr e ↦ rw e (Grouped-get groups name h)
  ]

  Grouped-put :
      (groups : Assoc (List Text)) (name : Text) (group : List Text)
      → Grouped groups
      → All (λ root. named root ≡ name) group
      → Grouped (put groups name group)
  unfolding put get
  Grouped-put [] name group h members = (members, refl, tt)
  Grouped-put ((n, g) ∷ groups) name group (old, fresh, h) members =
      elim (Bool-cases (text_eq n name)) [
        | inl e ↦ rw e (
          subst (λ m. All (λ root. named root ≡ m) group) (sym ((text_eq_iff n name).0 e)) members,
          fresh,
          h,
        )
        | inr e ↦ rw e (
          old,
          get-put groups name n group
              ∙ ground (arith, fresh, e, text_eq_iff n name, text_eq_iff name n),
          Grouped-put groups name group h members,
        )
      ]

  Grouped-group_by_name :
      (groups : Assoc (List Text)) (repositories : List Text)
      → Grouped groups
      → Grouped (group_by_name basename realpath digest groups repositories)
  unfolding group_by_name
  Grouped-group_by_name groups [] h = h
  Grouped-group_by_name groups (root ∷ repositories) h =
      let members = or_else (get groups (named root)) [] in
      let same_name : All (λ r. named r ≡ named root) (root ∷ []) = (refl, tt) in
      Grouped-group_by_name (put groups (named root) (members ++ root ∷ [])) repositories (
        Grouped-put groups (named root) (members ++ root ∷ []) h (
          All-append (λ r. named r ≡ named root) members (root ∷ [])
            (Grouped-get groups (named root) h) same_name))

  abbrev pub namesakes : List Text → Text → List Text
  namesakes repositories name = filterb (λ root. text_eq (named root) name) repositories

  group_by_name-namesakes :
      (groups : Assoc (List Text)) (repositories : List Text) (name : Text)
      → or_else (get (group_by_name basename realpath digest groups repositories) name) []
        ≡ or_else (get groups name) [] ++ namesakes repositories name
  unfolding group_by_name
  group_by_name-namesakes groups [] name = sym (append-nil _)
  group_by_name-namesakes groups (root ∷ repositories) name =
      let rest =
        group_by_name-namesakes
          (put groups (named root) (or_else (get groups (named root)) [] ++ root ∷ [])) repositories
          name in
      elim (Bool-cases (text_eq (named root) name)) [
        | inl e ↦
            let q = (text_eq_iff (named root) name).0 e in
            let entered : or_else
                  (get (put groups (named root) (or_else (get groups (named root)) [] ++ root ∷ []))
                    name)
                  []
                ≡ or_else (get groups name) [] ++ root ∷ [] =
              rw (get-put groups (named root) name, e)
                (ap (λ n. or_else (get groups n) [] ++ root ∷ []) q) in
            rest
            ∙ (ap (λ xs. xs ++ namesakes repositories name) entered
                ∙ (append_assoc (or_else (get groups name) []) (root ∷ [])
                      (namesakes repositories name)
                    ∙ rw e refl))
        | inr e ↦ rest ∙ rw (get-put groups (named root) name, e) refl
      ]

  -- The name of a member of a group: the group's own where it has one member.
  abbrev pub chosen : Text → List Text → Text → Text
  chosen name group root = if length group == 1 then name else with_hash name root

  get-name_members :
      (result : Assoc Text) (name : Text) (group : List Text) (root : Text)
      → get (name_members basename realpath digest result name group) root
        ≡ (if has group root then some (with_hash name root) else get result root)
  unfolding name_members has
  get-name_members result name [] root = refl
  get-name_members result name (r ∷ group) root =
      get-name_members (put result r (with_hash name r)) name group root
      ∙ ground (
        arith,
        get-put result r root (with_hash name r),
        text_eq_iff r root,
        λ (q : r ≡ root). ap (with_hash name) q,
      )

  get-name_group :
      (result : Assoc Text) (name : Text) (group : List Text) (root : Text)
      → get (name_group basename realpath digest result name group) root
        ≡ (if has group root then some (chosen name group root) else get result root)
  unfolding has
  get-name_group result name [] root = get-name_members result name [] root
  get-name_group result name (r ∷ []) root = ground (arith, get-put result r root name)
  get-name_group result name (r ∷ s ∷ group) root =
      rw (several (length group)) (get-name_members result name (r ∷ s ∷ group) root)
    where
      several : (n : ℕ) → (suc (suc n) == 1) ≡ false
      several n = ground arith

  no_member :
      (name : Text) (group : List Text) (root : Text)
      → All (λ r. named r ≡ name) group
      → text_eq name (named root) ≡ false
      → has group root ≡ false
  unfolding has
  no_member name [] root members e = refl
  no_member name (r ∷ group) root (q, members) e = ground (
    arith,
    no_member name group root members e,
    text_eq_iff r root,
    text_eq_iff name (named root),
    q,
    e,
    λ (same : r ≡ root). ap named same,
  )

  get-name_groups :
      (result : Assoc Text) (groups : Assoc (List Text)) (root : Text)
      → Grouped groups
      → get (name_groups basename realpath digest result groups) root ≡ (
          if has (or_else (get groups (named root)) []) root
          then some (chosen (named root) (or_else (get groups (named root)) []) root)
          else get result root)
  unfolding name_groups has get
  get-name_groups result [] root h = refl
  get-name_groups result ((name, group) ∷ groups) root (members, fresh, h) =
      let rest =
        get-name_groups (name_group basename realpath digest result name group) groups root h in
      let this = get-name_group result name group root in
      elim (Bool-cases (text_eq name (named root))) [
        | inl e ↦
            let q = (text_eq_iff name (named root)).0 e in
            let none_left : get groups (named root) ≡ none = ap (get groups) (sym q) ∙ fresh in
            rest
            ∙ rw (none_left, e)
                (this
                  ∙ ap (λ n. if has group root then some (chosen n group root) else get result root)
                      q)
        | inr e ↦
            rest
            ∙ rw e (
                ap
                  (λ o.
                    if has (or_else (get groups (named root)) []) root
                    then some (chosen (named root) (or_else (get groups (named root)) []) root)
                    else o)
                  (this ∙ rw (no_member name group root members e) refl))
      ]

  has-namesakes :
      (repositories : List Text) (root : Text)
      → has repositories root ≡ true
      → has (namesakes repositories (named root)) root ≡ true
  unfolding has
  has-namesakes [] root h = h
  has-namesakes (r ∷ repositories) root h = ground (
    arith,
    has-namesakes repositories root,
    text_eq_iff r root,
    h,
    text_eq_iff (named r) (named root),
    λ (same : r ≡ root). ap named same,
  )

  -- A repository of the list gets its own name where no other of the list has that name, and else
  -- its name with the digest of its canonical path, whatever names the others have.
  pub disambiguate_repository_basenames_lem :
      (repositories : List Text) (root : Text)
      → has repositories root ≡ true
      → get (disambiguate_repository_basenames basename realpath digest repositories) root
        ≡ some (chosen (named root) (namesakes repositories (named root)) root)
  unfolding disambiguate_repository_basenames get
  disambiguate_repository_basenames_lem repositories root h =
      get-name_groups [] (group_by_name basename realpath digest [] repositories) root
        (Grouped-group_by_name [] repositories tt)
      ∙ rw (group_by_name-namesakes [] repositories (named root), has-namesakes repositories root h)
          refl
