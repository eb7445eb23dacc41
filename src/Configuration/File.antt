-- ===== src/Configuration/File.antt =====
-- src/configuration.ts: one configuration file, from the bytes on disk to its settings.
use patchlab.Common.{
  ℕ, Text, codes, text_eq, trim, Bool, List, [], ◌∷◌, ◌*◌, Option, none, some, Result, ok, err,
  ◌>>=◌, Assoc, put, ltb, if◌then◌else◌,
}
use patchlab.Json.{Json, null, boolean, string, object, Members, get_member, entries}
use patchlab.ResourceLimits.Resolve.{LoadedResourceLimits}
use patchlab.Configuration.{
  ConfigurationError, stat_failed, too_large, read_failed, yaml_error, root_not_a_mapping,
  unknown_top_level_key, limits_not_a_mapping, default_tool_invalid,
  tool_configuration_not_a_mapping, unknown_tool, settings_not_a_mapping, unknown_setting,
  not_a_boolean, environment_not_a_mapping, environment_not_a_string, OpencodeSettings,
  ParsedConfigurationFile,
}
use patchlab.Configuration.Fields.{accept_keys, field_unless_null, yaml_resource_limits_to_loaded}

abbrev pub configuration_file_size_cap_bytes : ℕ
configuration_file_size_cap_bytes = 64 * 1024

abbrev pub accepted_top_level_keys : List Text
accepted_top_level_keys =
    codes "resource_limits" ∷ codes "default_tool" ∷ codes "tool_configuration" ∷ []

abbrev pub opencode_tool_name : Text
opencode_tool_name = codes "opencode"

abbrev opencode_settings_keys : List Text
opencode_settings_keys =
    codes "copy_host_configuration"
    ∷ codes "copy_host_auth"
    ∷ codes "proxy_local_models"
    ∷ codes "environment"
    ∷ []

-- What `statSync` and `readFileSync` say of a path; ENOENT is `absent`.
pub data OnDisk : Type 0 where
  absent : OnDisk
  unstatable : (message : Text) → OnDisk
  not_a_file : OnDisk
  file : (size : ℕ) → (content : Result Text Text) → OnDisk

abbrev content_of : Result Text Text → Result ConfigurationError (Option Text)
content_of (ok yaml_text) = ok (some yaml_text)
content_of (err message) = err (read_failed message)

unfoldable pub read_configuration_yaml_text : OnDisk → Result ConfigurationError (Option Text)
read_configuration_yaml_text absent = ok none
read_configuration_yaml_text (unstatable message) = err (stat_failed message)
read_configuration_yaml_text not_a_file = ok none
read_configuration_yaml_text (file size content) =
    if ltb configuration_file_size_cap_bytes size then err (too_large size) else content_of content

-- Tests on a value that is there
abbrev tool_text : Json → Result ConfigurationError Text
tool_text (string raw) = if text_eq (trim raw) [] then err default_tool_invalid else ok (trim raw)
tool_text _ = err default_tool_invalid

unfoldable pub parse_default_tool : Option Json → Result ConfigurationError (Option Text)
parse_default_tool raw = field_unless_null tool_text raw

unfoldable pub parse_boolean : Text → Json → Result ConfigurationError Bool
parse_boolean setting (boolean value) = ok value
parse_boolean setting _ = err (not_a_boolean setting)

abbrev environment_value : Text → Json → Result ConfigurationError Text
environment_value key (string value) = ok value
environment_value key _ = err (environment_not_a_string key)

unfoldable pub environment_entries :
    Assoc Text → List (Text × Json) → Result ConfigurationError (Assoc Text)
environment_entries environment [] = ok environment
environment_entries environment ((key, raw) ∷ fields) = do
  value ← environment_value key raw
  environment_entries (put environment key value) fields

abbrev parse_environment : Json → Result ConfigurationError (Assoc Text)
parse_environment (object raw) = environment_entries [] (entries raw)
parse_environment _ = err environment_not_a_mapping

abbrev setting : Members → Text → Result ConfigurationError (Option Bool)
setting raw key = field_unless_null (parse_boolean key) (get_member raw key)

unfoldable pub opencode_settings : Members → Result ConfigurationError OpencodeSettings
opencode_settings raw = do
  _ ← accept_keys opencode_settings_keys unknown_setting raw
  copy_host_configuration ← setting raw (codes "copy_host_configuration")
  copy_host_auth ← setting raw (codes "copy_host_auth")
  proxy_local_models ← setting raw (codes "proxy_local_models")
  environment ← field_unless_null parse_environment (get_member raw (codes "environment"))
  ok (record {
    copy_host_configuration = copy_host_configuration;
    copy_host_auth = copy_host_auth;
    proxy_local_models = proxy_local_models;
    environment = environment;
  })

unfoldable pub parse_opencode_settings : Json → Result ConfigurationError (Option OpencodeSettings)
unfolding opencode_settings
parse_opencode_settings null = ok none
parse_opencode_settings (object raw) = do settings ← opencode_settings raw; ok (some settings)
parse_opencode_settings _ = err settings_not_a_mapping

abbrev load_block : Assoc OpencodeSettings → Text → Option OpencodeSettings → Assoc OpencodeSettings
load_block loaded tool_name none = loaded
load_block loaded tool_name (some settings) = put loaded tool_name settings

-- The loop over the tools' blocks; there is one known tool.
unfoldable pub tool_blocks :
    Assoc OpencodeSettings → List (Text × Json) → Result ConfigurationError (Assoc OpencodeSettings)
unfolding parse_opencode_settings
tool_blocks loaded [] = ok loaded
tool_blocks loaded ((tool_name, raw) ∷ fields) = do
  block ←
      if text_eq tool_name opencode_tool_name
      then parse_opencode_settings raw
      else err (unknown_tool tool_name)
  tool_blocks (load_block loaded tool_name block) fields

-- `Object.keys(loaded).length > 0 ? loaded : null`
abbrev unless_empty : Assoc OpencodeSettings → Option (Assoc OpencodeSettings)
unless_empty [] = none
unless_empty (block ∷ loaded) = some (block ∷ loaded)

unfoldable pub parse_tool_configuration :
    Option Json → Result ConfigurationError (Option (Assoc OpencodeSettings))
unfolding tool_blocks
parse_tool_configuration none = ok none
parse_tool_configuration (some null) = ok none
parse_tool_configuration (some (object raw)) = do
  loaded ← tool_blocks [] (entries raw)
  ok (unless_empty loaded)
parse_tool_configuration (some _) = err tool_configuration_not_a_mapping

abbrev pub empty_loaded_resource_limits : LoadedResourceLimits
empty_loaded_resource_limits = record {
  memory_limit = none;
  cpu_limit = none;
  pids_limit = none;
  blkio_weight = none;
}

abbrev empty_parsed_configuration_file : ParsedConfigurationFile
empty_parsed_configuration_file = record {
  resource_limits = empty_loaded_resource_limits;
  default_tool = none;
  tool_configuration = none;
}

-- `resource_limits` has no exception for an explicit null.
abbrev pub parse_resource_limits : Option Json → Result ConfigurationError LoadedResourceLimits
parse_resource_limits none = ok empty_loaded_resource_limits
parse_resource_limits (some (object raw)) = yaml_resource_limits_to_loaded raw
parse_resource_limits (some _) = err limits_not_a_mapping

unfoldable pub parse_root : Members → Result ConfigurationError ParsedConfigurationFile
parse_root root = do
  _ ← accept_keys accepted_top_level_keys unknown_top_level_key root
  resource_limits ← parse_resource_limits (get_member root (codes "resource_limits"))
  default_tool ← parse_default_tool (get_member root (codes "default_tool"))
  tool_configuration ← parse_tool_configuration (get_member root (codes "tool_configuration"))
  ok (record {
    resource_limits = resource_limits;
    default_tool = default_tool;
    tool_configuration = tool_configuration;
  })

-- What `YAML.parse` made of the text, which is its message where it threw.
unfoldable pub parse_configuration_yaml :
    Result Text Json → Result ConfigurationError ParsedConfigurationFile
unfolding parse_root
parse_configuration_yaml (err message) = err (yaml_error message)
parse_configuration_yaml (ok null) = ok empty_parsed_configuration_file
parse_configuration_yaml (ok (object root)) = parse_root root
parse_configuration_yaml (ok _) = err root_not_a_mapping

abbrev pub limits_of : Option ParsedConfigurationFile → Option LoadedResourceLimits
limits_of none = none
limits_of (some parsed) = some parsed.resource_limits

module _ (yaml_parse : Text → Result Text Json) where
  abbrev pub parse_text : Option Text → Result ConfigurationError (Option ParsedConfigurationFile)
  parse_text none = ok none
  parse_text (some yaml_text) = do
    parsed ← parse_configuration_yaml (yaml_parse yaml_text)
    ok (some parsed)

  unfoldable pub load_full_configuration_file :
      OnDisk → Result ConfigurationError (Option ParsedConfigurationFile)
  load_full_configuration_file on_disk = do
    yaml_text ← read_configuration_yaml_text on_disk
    parse_text yaml_text

  unfoldable pub load_configuration_file :
      OnDisk → Result ConfigurationError (Option LoadedResourceLimits)
  load_configuration_file on_disk = do
    parsed ← load_full_configuration_file on_disk
    ok (limits_of parsed)
