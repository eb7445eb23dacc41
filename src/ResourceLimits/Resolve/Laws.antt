-- ===== src/ResourceLimits/Resolve/Laws.antt =====
-- What the five-layer resolver of src/resource_limits.ts guarantees for each layer.
use patchlab.Common.{
  ◌≡◌, ◌⊎◌, inl, inr, refl, ap, ◌∙◌, Bool, true, false, List, Option, none, some, Result, ok, err,
  arith, ◌>>=◌, >>=-eq-ok, or_else, first_some,
}
use mathlib.Core.Path.{subst}
use mathlib.Core.List.{[]}
use patchlab.ResourceLimits.Parse.{Limit, unlimited, limited, FlagError}
use patchlab.ResourceLimits.Resolve.{
  LoadedResourceLimits, LoadedConfiguration, PersistedResourceLimits, CliLimitOverrides,
  ResolvedResourceLimits, RuntimeDefaultLimits, Field, memory, cpus, pids, Message, Logged, Ordered,
  clamp_to, apply_per_source_clamp, after_per_source, resolve_concrete_or_unlimited_field,
  resolve_blkio_weight, memory_values, cpu_values, pids_values, field_of, present,
  resolve_resource_limits,
}

-- `a` is no looser than `b`: nothing is looser than "unlimited", and a value is within another if it
-- is that value or the comparison says so.
abbrev Within : (o : Ordered) → Limit o.Value → Limit o.Value → Type 0
Within o _ unlimited = Unit
Within o unlimited (limited b) = ⊥
Within o (limited a) (limited b) = (a ≡ b) ⊎ (o.at_most a b ≡ ok true)

module _ (o : Ordered) where
  Within-refl : (a : Limit o.Value) → Within o a a
  Within-refl unlimited = tt
  Within-refl (limited a) = inl refl

  clamp_to-Within :
      (field : Field) (value upper : o.Value) (within : Bool) {after : Limit o.Value}
      {log : List Message}
      → o.at_most value upper ≡ ok within
      → clamp_to field o.show value upper within ≡ (after, log)
      → Within o after (limited upper)
  clamp_to-Within field value upper true e h =
      subst (λ a. Within o a (limited upper)) (ap (λ (p : Logged (Limit o.Value)). p.0) h) (inr e)
  clamp_to-Within field value upper false e h =
      subst (λ a. Within o a (limited upper)) (ap (λ (p : Logged (Limit o.Value)). p.0) h)
        (inl refl)

  after-Within :
      {lower after : Limit o.Value} {log log' : List Message}
      → ◌≡◌ {A = Result FlagError (Logged (Limit o.Value))} (ok (lower, log)) (ok (after, log'))
      → Within o after lower
  after-Within {lower} h = subst (λ a. Within o a lower) (ground arith) (Within-refl lower)

  clamp-Within :
      (field : Field) (value upper after : Limit o.Value) (log : List Message)
      → apply_per_source_clamp o field value upper ≡ ok (after, log)
      → Within o after upper
  unfolding apply_per_source_clamp
  clamp-Within field unlimited unlimited after log h = tt
  clamp-Within field unlimited (limited upper) after log h = after-Within h
  clamp-Within field (limited value) unlimited after log h = tt
  clamp-Within field (limited value) (limited upper) after log h =
      let (within, e, f) = >>=-eq-ok (o.at_most value upper) _ h in
      clamp_to-Within field value upper within {log = log} e (ground arith)

  after_per_source-Within :
      (field : Field) (lower : Limit o.Value) (per_source : Option (Limit o.Value))
      (after : Limit o.Value) (log : List Message)
      → after_per_source o field lower per_source ≡ ok (after, log)
      → Within o after lower
  unfolding after_per_source
  after_per_source-Within field lower none after log h = after-Within h
  after_per_source-Within field lower (some value) after log h =
      clamp-Within field value lower after log h

  or_else-Within :
      (given : Option (Limit o.Value)) (a b : Limit o.Value)
      → Within o a b
      → Within o (or_else given a) (or_else given b)
  or_else-Within none a b h = h
  or_else-Within (some c) a b h = Within-refl c

  -- The layers without the per-source one.
  abbrev pub trusted : o.Value → (user_global manifest cli : Option (Limit o.Value)) → Limit o.Value
  trusted default user_global manifest cli =
      or_else cli (or_else manifest (or_else user_global (limited default)))

  resolve_field-Within :
      (field : Field) (default : o.Value)
      (user_global per_source manifest cli : Option (Limit o.Value)) {r : Limit o.Value}
      {log : List Message}
      → resolve_concrete_or_unlimited_field o field default user_global per_source manifest cli
        ≡ ok (r, log)
      → Within o r (trusted default user_global manifest cli)
  unfolding resolve_concrete_or_unlimited_field
  resolve_field-Within field default user_global per_source manifest cli h =
      let lower = or_else user_global (limited default) in
      let ((after, log), e, f) = >>=-eq-ok (after_per_source o field lower per_source) _ h in
      subst (λ r. Within o r (trusted default user_global manifest cli)) (ground arith)
        (or_else-Within cli _ _ (
          or_else-Within manifest _ _ (after_per_source-Within field lower per_source after log e)))

  resolve_field_alone :
      (field : Field) (default : o.Value) (user_global manifest cli : Option (Limit o.Value))
      → resolve_concrete_or_unlimited_field o field default user_global none manifest cli
        ≡ ok (trusted default user_global manifest cli, [])
  unfolding resolve_concrete_or_unlimited_field after_per_source
  resolve_field_alone field default user_global manifest cli = refl

-- The result of the resolver where no per-source file is loaded.
abbrev trusted_limits :
    RuntimeDefaultLimits
    → Option LoadedResourceLimits
    → Option PersistedResourceLimits
    → CliLimitOverrides
    → ResolvedResourceLimits
trusted_limits d user_global manifest cli = record {
  memory_limit =
      trusted memory_values d.memory_limit (field_of user_global (λ l. l.memory_limit))
        (present manifest (λ l. l.memory_limit)) cli.memory_limit;
  cpu_limit =
      trusted cpu_values d.cpu_limit (field_of user_global (λ l. l.cpu_limit))
        (present manifest (λ l. l.cpu_limit)) cli.cpu_limit;
  pids_limit =
      trusted pids_values d.pids_limit (field_of user_global (λ l. l.pids_limit))
        (present manifest (λ l. l.pids_limit)) cli.pids_limit;
  blkio_weight = first_some cli.blkio_weight (
      first_some (field_of manifest (λ l. l.blkio_weight))
        (field_of user_global (λ l. l.blkio_weight)));
}

pub record Tightened (r trusted : ResolvedResourceLimits) : Type 0 where
  pub memory_limit : Within memory_values r.memory_limit trusted.memory_limit
  pub cpu_limit : Within cpu_values r.cpu_limit trusted.cpu_limit
  pub pids_limit : Within pids_values r.pids_limit trusted.pids_limit
  pub blkio_weight : r.blkio_weight ≡ trusted.blkio_weight

bind_three {ℓ₁ ℓ₂ ℓ₃ ℓ₄} :
    {A : Type ℓ₁} {B : Type ℓ₂} {C : Type ℓ₃} {D : Type ℓ₄} (a : Result FlagError A)
    (b : Result FlagError B) (c : Result FlagError C) (f : A → B → C → D) {d : D}
    → (do x ← a; y ← b; z ← c; ok (f x y z)) ≡ ok d
    → (x : A) × (y : B) × (z : C) × (a ≡ ok x) × (b ≡ ok y) × (c ≡ ok z) × (f x y z ≡ d)
bind_three (ok x) (ok y) (ok z) f h = (x, y, z, refl, refl, refl, cc)
bind_three (ok x) (ok y) (err e) f h = cc
bind_three (ok x) (err e) c f h = cc
bind_three (err e) b c f h = cc

resolve_alone :
    (d : RuntimeDefaultLimits) (user_global : Option LoadedResourceLimits)
    (manifest : Option PersistedResourceLimits) (cli : CliLimitOverrides)
    → resolve_resource_limits d
        (record { user_global = user_global; per_source = none })
        manifest
        cli
      ≡ ok (trusted_limits d user_global manifest cli, [])
unfolding resolve_resource_limits resolve_blkio_weight resolve_concrete_or_unlimited_field
    after_per_source
resolve_alone d user_global manifest cli = refl

resolve-Tightened :
    (d : RuntimeDefaultLimits) (loaded : LoadedConfiguration)
    (manifest : Option PersistedResourceLimits) (cli : CliLimitOverrides)
    (r : ResolvedResourceLimits) (log : List Message)
    → resolve_resource_limits d loaded manifest cli ≡ ok (r, log)
    → Tightened r (trusted_limits d loaded.user_global manifest cli)
unfolding resolve_resource_limits resolve_blkio_weight
resolve-Tightened d loaded manifest cli r log h =
    let (m, c, p, em, ec, ep, e) = bind_three _ _ _ _ h in
    subst
      (λ (q : Logged ResolvedResourceLimits).
        Tightened q.0 (trusted_limits d loaded.user_global manifest cli))
      e
      (record {
        memory_limit = resolve_field-Within memory_values memory _ _ _ _ _ em;
        cpu_limit = resolve_field-Within cpu_values cpus _ _ _ _ _ ec;
        pids_limit = resolve_field-Within pids_values pids _ _ _ _ _ ep;
        blkio_weight = refl;
      })

-- Where the resolver succeeds, it also succeeds without the per-source file, silently, and each
-- limit that it gives with the file is within the one that it gives without it; the weight is the
-- same. So a per-source file can tighten a limit and never widen it, whatever the other layers hold.
pub resolve_resource_limits-Tightened :
    (d : RuntimeDefaultLimits) (loaded : LoadedConfiguration)
    (manifest : Option PersistedResourceLimits) (cli : CliLimitOverrides)
    (r : ResolvedResourceLimits) (log : List Message)
    → resolve_resource_limits d loaded manifest cli ≡ ok (r, log)
    → (t : ResolvedResourceLimits) × (resolve_resource_limits d
          (record loaded { per_source = none })
          manifest
          cli
        ≡ ok (t, []))
      × Tightened r t
resolve_resource_limits-Tightened d loaded manifest cli r log h = (
  trusted_limits d loaded.user_global manifest cli,
  resolve_alone d loaded.user_global manifest cli,
  resolve-Tightened d loaded manifest cli r log h,
)

resolve_field_resumed :
    (o : Ordered) (field : Field) (default : o.Value)
    (user_global per_source : Option (Limit o.Value)) (m : Limit o.Value)
    (cli : Option (Limit o.Value)) {r : Limit o.Value} {log : List Message}
    → resolve_concrete_or_unlimited_field o field default user_global per_source (some m) cli
      ≡ ok (r, log)
    → trusted o default user_global (some m) cli ≡ r
unfolding resolve_concrete_or_unlimited_field
resolve_field_resumed o field default user_global per_source m cli h =
    let ((after, log), e, f) =
      >>=-eq-ok (after_per_source o field (or_else user_global (limited default)) per_source) _ h in
    ground arith

-- On a resume no per-source value reaches a limit: the result is that of the persisted values, the
-- command line and the user's own configuration.
pub resolve_resource_limits_resumed :
    (d : RuntimeDefaultLimits) (loaded : LoadedConfiguration) (m : PersistedResourceLimits)
    (cli : CliLimitOverrides) (r : ResolvedResourceLimits) (log : List Message)
    → resolve_resource_limits d loaded (some m) cli ≡ ok (r, log)
    → resolve_resource_limits d (record loaded { per_source = none }) (some m) cli ≡ ok (r, [])
unfolding resolve_resource_limits resolve_blkio_weight
resolve_resource_limits_resumed d loaded m cli r log h =
    let (mem, c, p, em, ec, ep, e) = bind_three _ _ _ _ h in
    let hm = resolve_field_resumed memory_values memory _ _ _ _ _ em in
    let hc = resolve_field_resumed cpu_values cpus _ _ _ _ _ ec in
    let hp = resolve_field_resumed pids_values pids _ _ _ _ _ ep in
    resolve_alone d loaded.user_global (some m) cli
    ∙ ap (λ (t : ResolvedResourceLimits). ok (t, []))
        (λ i. record {
          memory_limit = hm i;
          cpu_limit = hc i;
          pids_limit = hp i;
          blkio_weight =
              first_some cli.blkio_weight
                (first_some m.blkio_weight (field_of loaded.user_global (λ l. l.blkio_weight)));
        })
    ∙ ap (λ (q : Logged ResolvedResourceLimits). ok (q.0, [])) e
