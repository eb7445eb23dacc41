-- ===== src/Configuration/Tests.antt =====
-- Runs of src/configuration.ts, and its theorems at concrete inputs.
use patchlab.Common.{
  ◌≡◌, refl, ap, ◌∙◌, ok-injective, ◌*◌, true, ℕ, Text, codes, text_eq, has, starts_with, split,
  join, trim, trim_start, trim_end, [], ◌∷◌, map, Option, none, some, Result, ok, err, ltb,
  if◌then◌else◌,
}
use patchlab.Common.Decimal.{span_digits}
use patchlab.Json.{
  Json, whole, huge, null, number, string, object, Members, member, no_members, get_member, entries,
}
use patchlab.NodePath.{is_absolute, normalized_segments, normalize, path_join}
use patchlab.PathContainment.{ends_with_slash}
use patchlab.ResourceLimits.Parse.{
  unlimited, limited, memory_match, cpus_match, memory_string_to_bytes,
}
use patchlab.Common.Floats.{number_of, parse_float, read_numeral}
use patchlab.ResourceLimits.Resolve.{
  LoadedResourceLimits, CliLimitOverrides, ResolvedResourceLimits, RuntimeDefaultLimits, Logged,
  number_at_most, memory_at_most, cpus_at_most, apply_per_source_clamp, after_per_source,
  resolve_concrete_or_unlimited_field, resolve_blkio_weight, resolve_resource_limits,
}
use patchlab.Configuration.{memory_ambiguous}
use patchlab.Configuration.Fields.{
  parse_memory_field, parse_cpus_field, parse_pids_field, first_unknown,
  yaml_resource_limits_to_loaded,
}
use patchlab.Configuration.Fields.Ranges.{IsInRange, yaml_resource_limits_to_loaded-IsInRange}
use patchlab.Configuration.File.{
  OnDisk, absent, file, read_configuration_yaml_text, parse_default_tool, parse_tool_configuration,
  parse_root, parse_configuration_yaml, load_full_configuration_file,
}
use patchlab.Configuration.Compose.{
  memory_magnitude, less, memory_less, decimal_less, smallest_of, fold_limit_field,
  fold_number_field, collect_field_contributors, compose_per_source_loaded_resource_limits,
}
use patchlab.Configuration.Compose.Clamped.{map_some, clamped, clamped-fold_limit_field}
use patchlab.Configuration.Compose.Composed.{
  IsComposition, compose_per_source_loaded_resource_limits-IsComposition,
}
use patchlab.Configuration.Load.{
  Loaded, user_global_configuration_path, per_source_configuration_path,
  normalize_loaded_tool_configuration, load_repositories, load_configuration,
}
use patchlab.Configuration.Load.Layers.{WritesExactMemory}
use patchlab.Configuration.Load.Limits.{
  AtMost, load_configuration-resolve_resource_limits, load_configuration-AtMost,
}

ambiguous_run : parse_memory_field (string (codes "0g")) ≡ err (memory_ambiguous (codes "0g"))
unfolding parse_memory_field text_eq memory_match span_digits
ambiguous_run = refl

-- A decimal zero in quotes is kept, although the runtime takes it for no limit.
decimal_zero_run : parse_cpus_field (string (codes "0.0")) ≡ ok (limited (codes "0.0"))
unfolding parse_cpus_field text_eq cpus_match span_digits
decimal_zero_run = refl

abbrev limits_mapping : Members
limits_mapping =
    member (codes "memory") (string (codes "4G"))
      (member (codes "pids") (number (whole 512)) (member (codes "blkio_weight") null no_members))

abbrev web_limits : LoadedResourceLimits
web_limits = record {
  memory_limit = some (limited (codes "4g"));
  cpu_limit = none;
  pids_limit = some (limited 512);
  blkio_weight = none;
}

mapping_run : yaml_resource_limits_to_loaded limits_mapping ≡ ok web_limits
unfolding yaml_resource_limits_to_loaded first_unknown entries get_member has text_eq
    parse_memory_field parse_pids_field memory_match span_digits
mapping_run = refl

yaml_resource_limits_to_loaded-IsInRange_example : IsInRange web_limits
unfolding get_member text_eq
yaml_resource_limits_to_loaded-IsInRange_example =
    yaml_resource_limits_to_loaded-IsInRange limits_mapping web_limits (λ t e. cc) mapping_run

abbrev api_limits : LoadedResourceLimits
api_limits = record {
  memory_limit = some (limited (codes "512m"));
  cpu_limit = some unlimited;
  pids_limit = some (limited 64);
  blkio_weight = some 300;
}

composed_run :
    compose_per_source_loaded_resource_limits (some web_limits ∷ none ∷ some api_limits ∷ [])
    ≡ some (record {
      memory_limit = some (limited (codes "512m"));
      cpu_limit = some unlimited;
      pids_limit = some (limited 64);
      blkio_weight = some 300;
    })
unfolding compose_per_source_loaded_resource_limits collect_field_contributors fold_limit_field
    fold_number_field smallest_of memory_less decimal_less memory_magnitude parse_float less
    span_digits trim trim_start trim_end
composed_run = refl

compose_per_source_loaded_resource_limits-IsComposition_example :
    IsComposition
      (some web_limits ∷ none ∷ some api_limits ∷ [])
      (compose_per_source_loaded_resource_limits (some web_limits ∷ none ∷ some api_limits ∷ []))
compose_per_source_loaded_resource_limits-IsComposition_example =
    compose_per_source_loaded_resource_limits-IsComposition
      (some web_limits ∷ none ∷ some api_limits ∷ [])

clamped-fold_limit_field_example :
    map_some (clamped (limited 100)) (fold_limit_field ltb (unlimited ∷ limited 512 ∷ []))
    ≡ fold_limit_field ltb (map (clamped (limited 100)) (unlimited ∷ limited 512 ∷ []))
clamped-fold_limit_field_example =
    clamped-fold_limit_field (limited 100) (unlimited ∷ limited 512 ∷ [])

-- One repository, whose file has the limits above; the text of a file stands for its value.
abbrev web_file : Json
web_file = object (member (codes "resource_limits") (object limits_mapping) no_members)

abbrev parse_any : Text → Result Text Json
parse_any text = ok web_file

abbrev web_disk : Text → OnDisk
web_disk path =
    if text_eq path (codes "/web/.patchlab/configuration.yaml")
    then file 40 (ok (codes "yaml"))
    else absent

abbrev web_loaded : Loaded
web_loaded = record {
  limits = record { user_global = none; per_source = some web_limits };
  default_tool = none;
  tool_configuration = [];
  per_repository_default_tools = [];
}

load_run :
    load_configuration parse_any web_disk none (codes "/home") (codes "/web" ∷ [])
    ≡ ok (web_loaded, [])
unfolding load_configuration load_repositories load_full_configuration_file
    read_configuration_yaml_text parse_configuration_yaml parse_root parse_default_tool
    parse_tool_configuration normalize_loaded_tool_configuration user_global_configuration_path
    per_source_configuration_path path_join normalize normalized_segments is_absolute
    ends_with_slash split join starts_with yaml_resource_limits_to_loaded first_unknown entries
    get_member has text_eq parse_memory_field parse_pids_field memory_match span_digits
    compose_per_source_loaded_resource_limits collect_field_contributors fold_limit_field
    fold_number_field smallest_of
load_run = refl

file_run :
    load_full_configuration_file parse_any (web_disk (per_source_configuration_path (codes "/web")))
    ≡ ok (
        some
          (record { resource_limits = web_limits; default_tool = none; tool_configuration = none }))
unfolding load_full_configuration_file read_configuration_yaml_text parse_configuration_yaml
    parse_root parse_default_tool parse_tool_configuration per_source_configuration_path path_join
    normalize normalized_segments is_absolute ends_with_slash split join starts_with
    yaml_resource_limits_to_loaded first_unknown entries get_member has text_eq parse_memory_field
    parse_pids_field memory_match span_digits
file_run = refl

abbrev defaults : RuntimeDefaultLimits
defaults = record { memory_limit = codes "6g"; cpu_limit = codes "3.0"; pids_limit = 1024 }

abbrev no_flags : CliLimitOverrides
no_flags = record { memory_limit = none; cpu_limit = none; pids_limit = none; blkio_weight = none }

abbrev members_of : Json → Members
members_of (object members) = members
members_of _ = no_members

-- The memory limit of the file is a string.
writes_exact_memory : (on_disk : OnDisk) → WritesExactMemory parse_any on_disk
unfolding get_member text_eq
writes_exact_memory on_disk text root raw read e f t q =
    let same : members_of web_file ≡ root = ap members_of (ok-injective e) in
    let inner : ◌≡◌ {A = Option Json} (some (object limits_mapping)) (some (object raw)) =
      ap (λ m. get_member m (codes "resource_limits")) same ∙ f in
    let mapping : limits_mapping ≡ raw = ap limits_of_member inner in
    let bad : ◌≡◌ {A = Option Json} (some (string (codes "4G"))) (some (number (huge t))) =
      ap (λ m. get_member m (codes "memory")) mapping ∙ q in
    cc
  where
    limits_of_member : Option Json → Members
    limits_of_member none = no_members
    limits_of_member (some value) = members_of value

abbrev six_gibibytes : ℕ
six_gibibytes = 6 * 1024 * 1024 * 1024

six_run : memory_string_to_bytes (codes "6g") ≡ ok six_gibibytes
unfolding memory_string_to_bytes memory_match span_digits
six_run = refl

load_configuration-resolve_resource_limits_example :
    (r : Logged ResolvedResourceLimits) × (resolve_resource_limits defaults web_loaded.limits none
        no_flags
      ≡ ok r)
load_configuration-resolve_resource_limits_example =
    load_configuration-resolve_resource_limits parse_any web_disk none (codes "/home")
      (codes "/web" ∷ []) web_loaded []
      (writes_exact_memory (web_disk (user_global_configuration_path none (codes "/home"))))
      (writes_exact_memory (web_disk (per_source_configuration_path (codes "/web"))), tt) load_run
      defaults none no_flags (six_gibibytes, six_run)

abbrev resolved : ResolvedResourceLimits
resolved = record {
  memory_limit = limited (codes "4g");
  cpu_limit = limited (codes "3.0");
  pids_limit = limited 512;
  blkio_weight = none;
}

resolve_run : resolve_resource_limits defaults web_loaded.limits none no_flags ≡ ok (resolved, [])
unfolding resolve_resource_limits resolve_concrete_or_unlimited_field after_per_source
    apply_per_source_clamp memory_at_most cpus_at_most number_of number_at_most
    memory_string_to_bytes memory_match span_digits resolve_blkio_weight
resolve_run = refl

load_configuration-AtMost_example : AtMost resolved.pids_limit 512
unfolding has text_eq
load_configuration-AtMost_example =
    load_configuration-AtMost parse_any web_disk none (codes "/home") (codes "/web" ∷ []) web_loaded
      [] defaults no_flags resolved [] (codes "/web")
      (record { resource_limits = web_limits; default_tool = none; tool_configuration = none }) 512
      load_run resolve_run refl refl file_run refl

-- A printed exponent counts in the comparison of both files.
exponent_run :
    (decimal_less (codes "1e-7") (codes "0.5") ≡ true)
    × (cpus_at_most (codes "1e-7") (codes "0.5") ≡ ok true)
unfolding decimal_less parse_float cpus_at_most number_of read_numeral span_digits less
exponent_run = (refl, refl)
