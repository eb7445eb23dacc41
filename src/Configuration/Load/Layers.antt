-- ===== src/Configuration/Load/Layers.antt =====
-- The layers that `load_configuration` of src/configuration.ts gathers from the repositories.
use patchlab.Common.{
  ◌≡◌, refl, sym, ap, ◌∙◌, Text, text_eq, text_eq_iff, has, true, List, [], ◌∷◌, ◌++◌, Option, none,
  some, Result, ok, err, >>=-eq-ok, Ensured, Ensured->>=, Ensured-ok, All, All-append, arith,
  Bool-cases, inl, inr, codes,
}
use mathlib.Core.Path.{subst}
use patchlab.Json.{Json, null, boolean, number, string, array, object, Members, get_member}
use patchlab.ResourceLimits.Resolve.{LoadedResourceLimits}
use patchlab.Configuration.{ConfigurationError, ParsedConfigurationFile, unknown_top_level_key}
use patchlab.Configuration.Fields.{accept_keys, yaml_resource_limits_to_loaded}
use patchlab.Configuration.Fields.Ranges.{
  IsExact, IsInRange, yaml_resource_limits_to_loaded-IsInRange,
}
use patchlab.Configuration.File.{
  OnDisk, read_configuration_yaml_text, parse_resource_limits, parse_default_tool,
  parse_tool_configuration, accepted_top_level_keys, parse_root, parse_configuration_yaml,
  parse_text, load_full_configuration_file, limits_of,
}
use patchlab.Configuration.Compose.Lattice.{Among}
use patchlab.Configuration.Load.{Gathered, gather, per_source_configuration_path, load_repositories}

-- A memory limit that the text of the file gives as a bare number lies below 2^53.
abbrev pub WritesExactMemory : (Text → Result Text Json) → OnDisk → Type 0
WritesExactMemory yaml_parse on_disk =
    (text : Text) (root raw : Members)
    → read_configuration_yaml_text on_disk ≡ ok (some text)
    → yaml_parse text ≡ ok (object root)
    → get_member root (codes "resource_limits") ≡ some (object raw)
    → IsExact (get_member raw (codes "memory"))

-- A file that is absent sets nothing.
abbrev pub IsLayer : Option LoadedResourceLimits → Type 0
IsLayer none = Unit
IsLayer (some l) = IsInRange l

abbrev InRangeFile : ParsedConfigurationFile → Type 0
InRangeFile parsed = IsInRange parsed.resource_limits

parse_resource_limits-IsInRange :
    (o : Option Json)
    → ((raw : Members) → o ≡ some (object raw) → IsExact (get_member raw (codes "memory")))
    → Ensured IsInRange (parse_resource_limits o)
parse_resource_limits-IsInRange none exact = record { memory = tt; pids = tt; weight = tt }
parse_resource_limits-IsInRange (some (object raw)) exact =
    returned (yaml_resource_limits_to_loaded raw)
      (λ l e. yaml_resource_limits_to_loaded-IsInRange raw l (exact raw refl) e)
  where
    returned :
        (step : Result ConfigurationError LoadedResourceLimits)
        → ((l : LoadedResourceLimits) → step ≡ ok l → IsInRange l)
        → Ensured IsInRange step
    returned (ok l) h = h l refl
    returned (err thrown) h = tt
parse_resource_limits-IsInRange (some null) exact = tt
parse_resource_limits-IsInRange (some (boolean _)) exact = tt
parse_resource_limits-IsInRange (some (number _)) exact = tt
parse_resource_limits-IsInRange (some (string _)) exact = tt
parse_resource_limits-IsInRange (some (array _)) exact = tt

parse_root-InRange :
    (root : Members)
    → ((raw : Members)
        → get_member root (codes "resource_limits") ≡ some (object raw)
        → IsExact (get_member raw (codes "memory")))
    → Ensured InRangeFile (parse_root root)
unfolding parse_root
parse_root-InRange root exact =
    let P = InRangeFile in
    let limits = get_member root (codes "resource_limits") in
    Ensured->>= P (accept_keys accepted_top_level_keys unknown_top_level_key root) _ (λ _ _.
      Ensured->>= P (parse_resource_limits limits) _ (λ l e.
        Ensured->>= P (parse_default_tool (get_member root (codes "default_tool"))) _ (λ _ _.
          Ensured->>= P (parse_tool_configuration (get_member root (codes "tool_configuration"))) _
            (λ _ _. Ensured-ok IsInRange _ (parse_resource_limits-IsInRange limits exact) e))))

parse_configuration_yaml-InRange :
    (yaml : Result Text Json)
    → ((root raw : Members)
        → yaml ≡ ok (object root)
        → get_member root (codes "resource_limits") ≡ some (object raw)
        → IsExact (get_member raw (codes "memory")))
    → Ensured InRangeFile (parse_configuration_yaml yaml)
unfolding parse_configuration_yaml
parse_configuration_yaml-InRange (err message) exact = tt
parse_configuration_yaml-InRange (ok null) exact = record { memory = tt; pids = tt; weight = tt }
parse_configuration_yaml-InRange (ok (object root)) exact =
    parse_root-InRange root (λ raw. exact root raw refl)
parse_configuration_yaml-InRange (ok (boolean _)) exact = tt
parse_configuration_yaml-InRange (ok (number _)) exact = tt
parse_configuration_yaml-InRange (ok (string _)) exact = tt
parse_configuration_yaml-InRange (ok (array _)) exact = tt

append-Among-left : {A : Type 0} (a : A) (xs ys : List A) → Among a xs → Among a (xs ++ ys)
append-Among-left a [] ys h = elim h [ ]
append-Among-left a (x ∷ xs) ys (inl e) = inl e
append-Among-left a (x ∷ xs) ys (inr h) = inr (append-Among-left a xs ys h)

Among-append-last : {A : Type 0} (a : A) (xs : List A) → Among a (xs ++ a ∷ [])
Among-append-last a [] = inl refl
Among-append-last a (x ∷ xs) = inr (Among-append-last a xs)

abbrev LimitsInRange : Option ParsedConfigurationFile → Type 0
LimitsInRange parsed = IsLayer (limits_of parsed)

gather_limits :
    (so_far : Gathered) (root : Text) (parsed : Option ParsedConfigurationFile)
    → (gather so_far root parsed).per_repository_limits
      ≡ so_far.per_repository_limits ++ limits_of parsed ∷ []
gather_limits so_far root none = refl
gather_limits so_far root (some parsed) = refl

module _ (yaml_parse : Text → Result Text Json) where
  pub load_full_configuration_file-IsLayer :
      (on_disk : OnDisk)
      → WritesExactMemory yaml_parse on_disk
      → Ensured LimitsInRange (load_full_configuration_file yaml_parse on_disk)
  unfolding load_full_configuration_file
  load_full_configuration_file-IsLayer on_disk exact =
      Ensured->>= LimitsInRange (read_configuration_yaml_text on_disk) _ parse_text-IsLayer
    where
      parse_text-IsLayer :
          (text : Option Text)
          → read_configuration_yaml_text on_disk ≡ ok text
          → Ensured LimitsInRange (parse_text yaml_parse text)
      parse_text-IsLayer none read = tt
      parse_text-IsLayer (some text) read =
          Ensured->>= LimitsInRange (parse_configuration_yaml (yaml_parse text)) _ (λ parsed e.
            Ensured-ok InRangeFile _
              (parse_configuration_yaml-InRange (yaml_parse text)
                (λ root raw. exact text root raw read))
              e)

  module _ (disk : Text → OnDisk) where
    -- All layers that are gathered are in range.
    pub load_repositories-IsLayer :
        (so_far : Gathered) (roots : List Text) (gathered : Gathered)
        → All
            (λ root. WritesExactMemory yaml_parse (disk (per_source_configuration_path root)))
            roots
        → All IsLayer so_far.per_repository_limits
        → load_repositories yaml_parse disk so_far roots ≡ ok gathered
        → All IsLayer gathered.per_repository_limits
    unfolding load_repositories
    load_repositories-IsLayer so_far [] gathered exact all h =
        let same : so_far ≡ gathered = ground (arith, h) in
        subst (λ (g : Gathered). All IsLayer g.per_repository_limits) same all
    load_repositories-IsLayer so_far (root ∷ roots) gathered (exact, exacts) all h =
        let on_disk = disk (per_source_configuration_path root) in
        let (parsed, e, f) = >>=-eq-ok (load_full_configuration_file yaml_parse on_disk) _ h in
        let layer =
          Ensured-ok LimitsInRange _ (load_full_configuration_file-IsLayer on_disk exact) e in
        load_repositories-IsLayer (gather so_far root parsed) roots gathered exacts
          (rw (gather_limits so_far root parsed) (
            All-append IsLayer so_far.per_repository_limits (limits_of parsed ∷ []) all
              (layer, tt)))
          f

    load_repositories_keeps :
        (so_far : Gathered) (roots : List Text) (gathered : Gathered)
        (layer : Option LoadedResourceLimits)
        → load_repositories yaml_parse disk so_far roots ≡ ok gathered
        → Among layer so_far.per_repository_limits
        → Among layer gathered.per_repository_limits
    unfolding load_repositories
    load_repositories_keeps so_far [] gathered layer h among =
        let same : so_far ≡ gathered = ground (arith, h) in
        subst (λ (g : Gathered). Among layer g.per_repository_limits) same among
    load_repositories_keeps so_far (root ∷ roots) gathered layer h among =
        let on_disk = disk (per_source_configuration_path root) in
        let (parsed, e, f) = >>=-eq-ok (load_full_configuration_file yaml_parse on_disk) _ h in
        load_repositories_keeps (gather so_far root parsed) roots gathered layer f
          (rw (gather_limits so_far root parsed) (append-Among-left layer _ _ among))

    -- The layer of every repository is gathered.
    pub load_repositories-Among :
        (so_far : Gathered) (roots : List Text) (gathered : Gathered) (root : Text)
        (parsed : Option ParsedConfigurationFile)
        → load_repositories yaml_parse disk so_far roots ≡ ok gathered
        → has roots root ≡ true
        → load_full_configuration_file yaml_parse (disk (per_source_configuration_path root))
          ≡ ok parsed
        → Among (limits_of parsed) gathered.per_repository_limits
    unfolding load_repositories has
    load_repositories-Among so_far [] gathered root parsed h listed e = cc
    load_repositories-Among so_far (r ∷ roots) gathered root parsed h listed e =
        let on_disk = disk (per_source_configuration_path r) in
        let (here, f, g) = >>=-eq-ok (load_full_configuration_file yaml_parse on_disk) _ h in
        elim (Bool-cases (text_eq r root)) [
          | inl q ↦
              let same : here ≡ parsed = ok_same here parsed (
                sym f
                ∙ ap
                    (λ (t : Text).
                      load_full_configuration_file yaml_parse
                        (disk (per_source_configuration_path t)))
                    ((text_eq_iff r root).0 q)
                ∙ e) in
              load_repositories_keeps (gather so_far r here) roots gathered (limits_of parsed) g (
                rw (gather_limits so_far r here)
                  (rw same (Among-append-last (limits_of parsed) so_far.per_repository_limits)))
          | inr q ↦
              load_repositories-Among (gather so_far r here) roots gathered root parsed g
                (ground (arith, q, listed)) e
        ]
      where
        ok_same :
            (a b : Option ParsedConfigurationFile)
            → ◌≡◌ {A = Result ConfigurationError (Option ParsedConfigurationFile)} (ok a) (ok b)
            → a ≡ b
        ok_same a b e = cc
