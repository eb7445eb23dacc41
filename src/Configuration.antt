-- ===== src/Configuration.antt =====
-- src/configuration.ts: the configuration files of the user and of the repositories.
-- `YAML.parse` is an argument; its values are those of Json. A message's text is the constructor of
-- the `throw` with what it shows; the file's path, which every message names, is left out.
pub mod Compose
pub mod Fields
pub mod File
pub mod Load
mod Tests
use patchlab.Common.{ℕ, Text, Bool, Option, Assoc}
use patchlab.Json.{Json, Number}
use patchlab.ResourceLimits.Resolve.{LoadedResourceLimits}

pub data ConfigurationError : Type 0 where
  stat_failed : (message : Text) → ConfigurationError
  too_large : (size : ℕ) → ConfigurationError
  read_failed : (message : Text) → ConfigurationError
  yaml_error : (message : Text) → ConfigurationError
  root_not_a_mapping : ConfigurationError
  unknown_top_level_key : (key : Text) → ConfigurationError
  limits_not_a_mapping : ConfigurationError
  unknown_limit_key : (key : Text) → ConfigurationError
  memory_number_invalid : Number → ConfigurationError
  memory_not_a_string : Json → ConfigurationError
  memory_text_invalid : Text → ConfigurationError
  memory_ambiguous : Text → ConfigurationError
  cpus_number_invalid : Number → ConfigurationError
  cpus_not_a_string : Json → ConfigurationError
  cpus_text_invalid : Text → ConfigurationError
  pids_not_an_integer : Json → ConfigurationError
  pids_below_zero : ConfigurationError
  pids_over_maximum : ConfigurationError
  blkio_not_an_integer : Json → ConfigurationError
  blkio_outside_range : Number → ConfigurationError
  default_tool_invalid : ConfigurationError
  tool_configuration_not_a_mapping : ConfigurationError
  unknown_tool : (tool_name : Text) → ConfigurationError
  settings_not_a_mapping : ConfigurationError
  unknown_setting : (key : Text) → ConfigurationError
  not_a_boolean : (setting : Text) → ConfigurationError
  environment_not_a_mapping : ConfigurationError
  environment_not_a_string : (key : Text) → ConfigurationError

-- `Partial<Loaded_OpenCode_Settings>`
pub record OpencodeSettings : Type 0 where
  pub copy_host_configuration : Option Bool
  pub copy_host_auth : Option Bool
  pub proxy_local_models : Option Bool
  pub environment : Option (Assoc Text)

pub record ParsedConfigurationFile : Type 0 where
  pub resource_limits : LoadedResourceLimits
  pub default_tool : Option Text
  pub tool_configuration : Option (Assoc OpencodeSettings)
