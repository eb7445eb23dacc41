-- ===== src/Configuration/Load/Limits.antt =====
-- The configuration files of src/configuration.ts and the resolver of src/resource_limits.ts together.
use patchlab.Common.{
  ◌≡◌, refl, sym, ap, ◌∙◌, ℕ, ◌≤◌, Text, has, Bool, true, false, List, [], ◌∷◌, Option, none, some,
  Result, ok, >>=-eq-ok, All, arith, inl, inr, ltb, leb, or_else, Ensured-ok, Ensured->>=,
  ok-injective,
}
use mathlib.Core.Path.{subst}
use patchlab.Json.{Json}
use patchlab.ResourceLimits.Parse.{Limit, unlimited, limited, FlagError}
use patchlab.ResourceLimits.Resolve.{
  LoadedResourceLimits, LoadedConfiguration, PersistedResourceLimits, CliLimitOverrides,
  ResolvedResourceLimits, RuntimeDefaultLimits, memory, cpus, pids, Message, Logged,
  apply_per_source_clamp, after_per_source, resolve_concrete_or_unlimited_field, number_at_most,
  memory_values, cpu_values, pids_values, field_of, clamp_to, resolve_resource_limits,
  resolve_blkio_weight,
}
use patchlab.ResourceLimits.Resolve.Total.{
  IsReadable, IsReadableField, resolve_resource_limits_total,
}
use patchlab.Configuration.{ParsedConfigurationFile}
use patchlab.Configuration.Fields.Ranges.{IsMemory, IfSet}
use patchlab.Configuration.File.{OnDisk, load_full_configuration_file, limits_of}
use patchlab.Configuration.Compose.{
  cons_some, has_any, memory_less, collect_field_contributors,
  compose_per_source_loaded_resource_limits,
}
use patchlab.Configuration.Compose.Lattice.{Among, IsMeet, stricter}
use patchlab.Configuration.Compose.Composed.{
  values_set, IsComposition, compose_per_source_loaded_resource_limits-IsComposition,
}
use patchlab.Configuration.Load.{
  Loaded, Gathered, nothing_gathered, per_source_configuration_path, user_global_configuration_path,
  load_repositories, load_configuration,
}
use patchlab.Configuration.Load.Layers.{
  WritesExactMemory, IsLayer, load_full_configuration_file-IsLayer, load_repositories-IsLayer,
  load_repositories-Among,
}

IsMemory-IsReadable : (l : Limit Text) → IsMemory l → IsReadable l
IsMemory-IsReadable unlimited h = tt
IsMemory-IsReadable (limited t) (bytes, (positive, read)) = (bytes, read)

-- Every value that a layer in range sets is a memory limit.
values_set-IsMemory :
    (layers : List (Option LoadedResourceLimits))
    → All IsLayer layers
    → All IsMemory (values_set layers (λ l. l.memory_limit))
unfolding collect_field_contributors
values_set-IsMemory [] all = tt
values_set-IsMemory (none ∷ layers) (h, all) = values_set-IsMemory layers all
values_set-IsMemory (some l ∷ layers) (h, all) =
    with_field l.memory_limit h.memory (values_set-IsMemory layers all)
  where
    with_field :
        (o : Option (Limit Text))
        → IfSet IsMemory o
        → All IsMemory (values_set layers (λ l. l.memory_limit))
        → All IsMemory (cons_some o (values_set layers (λ l. l.memory_limit)))
    with_field none h all = all
    with_field (some v) h all = (h, all)

Among-All : {A : Type 0} (P : A → Type 0) (a : A) (xs : List A) → Among a xs → All P xs → P a
Among-All P a [] h all = elim h [ ]
Among-All P a (x ∷ xs) (inl e) (p, all) = subst P (sym e) p
Among-All P a (x ∷ xs) (inr h) (p, all) = Among-All P a xs h all

IsMeet-readable :
    (values : List (Limit Text)) (o : Option (Limit Text))
    → IsMeet (stricter memory_less) values o
    → All IsMemory values
    → IsReadableField o
IsMeet-readable values none meet all = tt
IsMeet-readable values (some v) (among, least) all =
    IsMemory-IsReadable v (Among-All IsMemory v values among all)

composition-readable :
    (layers : List (Option LoadedResourceLimits)) (composed : Option LoadedResourceLimits)
    → All IsLayer layers
    → IsComposition layers composed
    → IsReadableField (field_of composed (λ l. l.memory_limit))
composition-readable layers none all h = tt
composition-readable layers (some l) all h =
    IsMeet-readable (values_set layers (λ l. l.memory_limit)) l.memory_limit h.memory
      (values_set-IsMemory layers all)

layer-readable :
    (layer : Option LoadedResourceLimits)
    → IsLayer layer
    → IsReadableField (field_of layer (λ l. l.memory_limit))
layer-readable none h = tt
layer-readable (some l) h = field l.memory_limit h.memory
  where
    field : (o : Option (Limit Text)) → IfSet IsMemory o → IsReadableField o
    field none h = tt
    field (some v) h = IsMemory-IsReadable v h

module _ (yaml_parse : Text → Result Text Json) (disk : Text → OnDisk) where
  -- The two layers that a load passes on
  load_configuration-layers :
      (home : Option Text) (homedir : Text) (roots : List Text) (loaded : Loaded)
      (messages : List Text)
      → load_configuration yaml_parse disk home homedir roots ≡ ok (loaded, messages)
      → (user_global : Option ParsedConfigurationFile) × (gathered : Gathered)
        × (load_full_configuration_file yaml_parse
              (disk (user_global_configuration_path home homedir))
            ≡ ok user_global)
        × (load_repositories yaml_parse disk nothing_gathered roots ≡ ok gathered)
        × (loaded.limits ≡ record {
          user_global = limits_of user_global;
          per_source = compose_per_source_loaded_resource_limits gathered.per_repository_limits;
        })
  unfolding load_configuration
  load_configuration-layers home homedir roots loaded messages h =
      let (user_global, e, f) =
        >>=-eq-ok
          (load_full_configuration_file yaml_parse
            (disk (user_global_configuration_path home homedir)))
          _ h in
      let (gathered, g, i) =
        >>=-eq-ok (load_repositories yaml_parse disk nothing_gathered roots) _ f in
      (
        user_global,
        gathered,
        e,
        g,
        sym (ap (λ (p : Loaded × List Text). p.0.limits) (ok-injective i)),
      )

  -- If the configuration files load and no memory limit in the user's file and in those of the
  -- repositories is a bare number above 2^53, then the resolver throws nothing on what was loaded,
  -- whatever the manifest and the command line hold, as long as it can read the default memory limit.
  pub load_configuration-resolve_resource_limits :
      (home : Option Text) (homedir : Text) (roots : List Text) (loaded : Loaded)
      (messages : List Text)
      → WritesExactMemory yaml_parse (disk (user_global_configuration_path home homedir))
      → All (λ root. WritesExactMemory yaml_parse (disk (per_source_configuration_path root))) roots
      → load_configuration yaml_parse disk home homedir roots ≡ ok (loaded, messages)
      → (d : RuntimeDefaultLimits) (manifest : Option PersistedResourceLimits)
        (cli : CliLimitOverrides)
      → IsReadable (limited d.memory_limit)
      → (r : Logged ResolvedResourceLimits) × (resolve_resource_limits d loaded.limits manifest cli
          ≡ ok r)
  load_configuration-resolve_resource_limits home homedir roots loaded messages exact exacts h d
        manifest cli readable =
      let (user_global, gathered, e, g, layers) =
        load_configuration-layers home homedir roots loaded messages h in
      let on_disk = disk (user_global_configuration_path home homedir) in
      let user_layer =
        Ensured-ok (λ (parsed : Option ParsedConfigurationFile). IsLayer (limits_of parsed)) _
          (load_full_configuration_file-IsLayer yaml_parse on_disk exact) e in
      let all =
        load_repositories-IsLayer yaml_parse disk nothing_gathered roots gathered exacts tt g in
      let composed = compose_per_source_loaded_resource_limits gathered.per_repository_limits in
      rw layers (
        resolve_resource_limits_total d
          (record { user_global = limits_of user_global; per_source = composed }) manifest cli
          readable (layer-readable (limits_of user_global) user_layer)
          (composition-readable gathered.per_repository_limits composed all (
            compose_per_source_loaded_resource_limits-IsComposition
              gathered.per_repository_limits)))

-- A concrete limit of at most `n`
abbrev pub AtMost : Limit ℕ → ℕ → Type 0
AtMost l n = (m : ℕ) × ((l ≡ limited m) × (m ≤ n))

values_set-Among :
    (layers : List (Option LoadedResourceLimits)) (l : LoadedResourceLimits) (v : Limit ℕ)
    → Among (some l) layers
    → l.pids_limit ≡ some v
    → Among v (values_set layers (λ l. l.pids_limit))
unfolding collect_field_contributors
values_set-Among [] l v among e = elim among [ ]
values_set-Among (layer ∷ layers) l v (inl q) e = rw (← q) (rw e (inl refl))
values_set-Among (none ∷ layers) l v (inr among) e = values_set-Among layers l v among e
values_set-Among (some first ∷ layers) l v (inr among) e =
    skip first.pids_limit (values_set-Among layers l v among e)
  where
    skip :
        (o : Option (Limit ℕ))
        → Among v (values_set layers (λ l. l.pids_limit))
        → Among v (cons_some o (values_set layers (λ l. l.pids_limit)))
    skip none h = h
    skip (some w) h = inr h

IsMeet-AtMost :
    (values : List (Limit ℕ)) (o : Option (Limit ℕ)) (n : ℕ)
    → IsMeet (stricter ltb) values o
    → Among (limited n) values
    → (v : Limit ℕ) × ((o ≡ some v) × AtMost v n)
unfolding stricter
IsMeet-AtMost values none n meet among = absurd (nowhere (rw meet at among))
  where
    nowhere : Among (limited n) [] → ⊥
    nowhere h = elim h [ ]
IsMeet-AtMost values (some unlimited) n (here, least) among =
    let bad = Among-All (λ w. stricter ltb w unlimited ≡ false) (limited n) values among least in cc
IsMeet-AtMost values (some (limited m)) n (here, least) among =
    let within =
      Among-All (λ w. stricter ltb w (limited m) ≡ false) (limited n) values among least in
    (limited m, (refl, (m, (refl, ground (arith, within)))))

composition-AtMost :
    (layers : List (Option LoadedResourceLimits)) (composed : Option LoadedResourceLimits)
    (l : LoadedResourceLimits) (n : ℕ)
    → IsComposition layers composed
    → Among (some l) layers
    → l.pids_limit ≡ some (limited n)
    → (v : Limit ℕ) × ((field_of composed (λ l. l.pids_limit) ≡ some v) × AtMost v n)
composition-AtMost layers none l n h among e = absurd (some_layer layers h among)
  where
    some_layer :
        (layers : List (Option LoadedResourceLimits))
        → has_any layers ≡ false
        → Among (some l) layers
        → ⊥
    some_layer [] h among = elim among [ ]
    some_layer (none ∷ layers) h (inl q) = cc
    some_layer (none ∷ layers) h (inr among) = some_layer layers h among
    some_layer (some _ ∷ layers) h among = cc
composition-AtMost layers (some composite) l n h among e =
    IsMeet-AtMost (values_set layers (λ l. l.pids_limit)) composite.pids_limit n h.pids
      (values_set-Among layers l (limited n) among e)

clamp-AtMost :
    (m n : ℕ) (upper after : Limit ℕ) (log : List Message)
    → m ≤ n
    → apply_per_source_clamp pids_values pids (limited m) upper ≡ ok (after, log)
    → AtMost after n
unfolding apply_per_source_clamp number_at_most
clamp-AtMost m n unlimited after log within h =
    (m, (sym (ap (λ (p : Logged (Limit ℕ)). p.0) (ok-injective h)), within))
clamp-AtMost m n (limited u) after log within h = decide (leb m u) refl h
  where
    decide :
        (t : Bool)
        → leb m u ≡ t
        → ◌≡◌ {A = Result FlagError (Logged (Limit ℕ))}
            (ok (clamp_to pids pids_values.show m u t))
            (ok (after, log))
        → AtMost after n
    decide true e h = (m, (sym (ap (λ (p : Logged (Limit ℕ)). p.0) (ok-injective h)), within))
    decide false e h =
        (u, (sym (ap (λ (p : Logged (Limit ℕ)). p.0) (ok-injective h)), ground (arith, e, within)))

resolve_field-AtMost :
    (default : ℕ) (user_global per_source cli : Option (Limit ℕ)) (v : Limit ℕ) (n : ℕ)
    (p : Logged (Limit ℕ))
    → per_source ≡ some v
    → AtMost v n
    → cli ≡ none
    → resolve_concrete_or_unlimited_field pids_values pids default user_global per_source none cli
      ≡ ok p
    → AtMost p.0 n
unfolding resolve_concrete_or_unlimited_field after_per_source
resolve_field-AtMost default user_global (some w) (some c) v n p set within silent h = cc
resolve_field-AtMost default user_global none cli v n p set within silent h = cc
resolve_field-AtMost default user_global (some unlimited) none v n p set (m, (q, bound)) silent h =
    let bad : ◌≡◌ {A = Option (Limit ℕ)} (some unlimited) (some (limited m)) = set ∙ ap some q in cc
resolve_field-AtMost default user_global (some (limited k)) none v n p set (m, (q, bound)) silent
      h =
    let same : ◌≡◌ {A = Option (Limit ℕ)} (some (limited k)) (some (limited m)) = set ∙ ap some q in
    let lower = or_else user_global (limited default) in
    let ((after, log), e, f) =
      >>=-eq-ok (apply_per_source_clamp pids_values pids (limited k) lower) _ h in
    let clamped = clamp-AtMost k n lower after log (ground (arith, same, bound)) e in
    subst (λ (p : Logged (Limit ℕ)). AtMost p.0 n) (ok-injective f) clamped

resolve_pids-AtMost :
    (d : RuntimeDefaultLimits) (loaded : LoadedConfiguration) (cli : CliLimitOverrides)
    (v : Limit ℕ) (n : ℕ) (r : ResolvedResourceLimits) (log : List Message)
    → field_of loaded.per_source (λ l. l.pids_limit) ≡ some v
    → AtMost v n
    → cli.pids_limit ≡ none
    → resolve_resource_limits d loaded none cli ≡ ok (r, log)
    → AtMost r.pids_limit n
unfolding resolve_resource_limits resolve_blkio_weight
resolve_pids-AtMost d loaded cli v n r log e within silent h =
    let user_global = loaded.user_global in
    let per_source = loaded.per_source in
    let P = λ (q : Logged ResolvedResourceLimits). AtMost q.0.pids_limit n in
    Ensured-ok P _
      (Ensured->>= P
        (resolve_concrete_or_unlimited_field memory_values memory d.memory_limit
          (field_of user_global (λ l. l.memory_limit)) (field_of per_source (λ l. l.memory_limit))
          none cli.memory_limit)
        _
        (λ _ _.
          Ensured->>= P
            (resolve_concrete_or_unlimited_field cpu_values cpus d.cpu_limit
              (field_of user_global (λ l. l.cpu_limit)) (field_of per_source (λ l. l.cpu_limit))
              none cli.cpu_limit)
            _
            (λ _ _.
              Ensured->>= P
                (resolve_concrete_or_unlimited_field pids_values pids d.pids_limit
                  (field_of user_global (λ l. l.pids_limit))
                  (field_of per_source (λ l. l.pids_limit)) none cli.pids_limit)
                _
                (λ p ep.
                  resolve_field-AtMost d.pids_limit (field_of user_global (λ l. l.pids_limit))
                    (field_of per_source (λ l. l.pids_limit)) cli.pids_limit v n p e within silent
                    ep))))
      h

-- When a new sandbox, which has no persisted limits, is created from configuration files that load,
-- and the command line gives no pids limit, then for every repository whose file sets the pids limit to
-- a number the resolved pids limit is a number and at most that one, whatever the user's file and the
-- defaults say.
pub load_configuration-AtMost :
    (yaml_parse : Text → Result Text Json) (disk : Text → OnDisk) (home : Option Text)
    (homedir : Text) (roots : List Text) (loaded : Loaded) (messages : List Text)
    (d : RuntimeDefaultLimits) (cli : CliLimitOverrides) (r : ResolvedResourceLimits)
    (log : List Message) (root : Text) (parsed : ParsedConfigurationFile) (n : ℕ)
    → load_configuration yaml_parse disk home homedir roots ≡ ok (loaded, messages)
    → resolve_resource_limits d loaded.limits none cli ≡ ok (r, log)
    → cli.pids_limit ≡ none
    → has roots root ≡ true
    → load_full_configuration_file yaml_parse (disk (per_source_configuration_path root))
      ≡ ok (some parsed)
    → parsed.resource_limits.pids_limit ≡ some (limited n)
    → AtMost r.pids_limit n
load_configuration-AtMost yaml_parse disk home homedir roots loaded messages d cli r log root parsed
      n h resolved silent listed file_loaded sets =
    let (user_global, gathered, _, g, layers) =
      load_configuration-layers yaml_parse disk home homedir roots loaded messages h in
    let composed = compose_per_source_loaded_resource_limits gathered.per_repository_limits in
    let among =
      load_repositories-Among yaml_parse disk nothing_gathered roots gathered root (some parsed) g
        listed file_loaded in
    let (v, (e, within)) =
      composition-AtMost gathered.per_repository_limits composed parsed.resource_limits n
        (compose_per_source_loaded_resource_limits-IsComposition gathered.per_repository_limits)
        among sets in
    resolve_pids-AtMost d loaded.limits cli v n r log
      (ap (λ (c : LoadedConfiguration). field_of c.per_source (λ l. l.pids_limit)) layers ∙ e)
      within silent resolved
