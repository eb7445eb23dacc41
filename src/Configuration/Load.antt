-- ===== src/Configuration/Load.antt =====
-- src/configuration.ts: `load_configuration`, over the files of the user and of every repository.
-- The verbose messages are listed by the file that they name; a throw passes on none of them.
pub mod Layers
pub mod Limits
use patchlab.Common.{
  Text, codes, text_eq, Bool, List, [], ◌∷◌, ◌++◌, Option, none, some, Result, ok, err, ◌>>=◌,
  Assoc, put, or_else,
}
use patchlab.Json.{Json}
use patchlab.NodePath.{path_join}
use patchlab.ResourceLimits.Resolve.{LoadedResourceLimits, LoadedConfiguration}
use patchlab.Configuration.{ConfigurationError, OpencodeSettings, ParsedConfigurationFile}
use patchlab.Configuration.File.{OnDisk, load_full_configuration_file, limits_of}
use patchlab.Configuration.Compose.{compose_per_source_loaded_resource_limits}

abbrev file_below : Text → Text
file_below root = path_join root (codes ".patchlab/configuration.yaml")

abbrev home_of : Option Text → Text → Text
home_of none homedir = homedir
home_of (some []) homedir = homedir
home_of (some (c ∷ cs)) homedir = c ∷ cs

-- `patchlab_home` is the environment variable, `homedir` what `os.homedir()` says.
unfoldable pub user_global_configuration_path : Option Text → Text → Text
user_global_configuration_path patchlab_home homedir = file_below (home_of patchlab_home homedir)

unfoldable pub per_source_configuration_path : Text → Text
per_source_configuration_path repository_root = file_below repository_root

-- `resource_limits` is the pair of layers that the resolver takes.
pub record Loaded : Type 0 where
  pub limits : LoadedConfiguration
  pub default_tool : Option Text
  pub tool_configuration : Assoc OpencodeSettings
  pub per_repository_default_tools : Assoc Text

-- What the loop over the repositories has gathered
pub record Gathered : Type 0 where
  pub per_repository_limits : List (Option LoadedResourceLimits)
  pub per_repository_default_tools : Assoc Text
  pub ignored_tool_configuration : List Text

abbrev pub nothing_gathered : Gathered
nothing_gathered = record {
  per_repository_limits = [];
  per_repository_default_tools = [];
  ignored_tool_configuration = [];
}

abbrev put_some : Assoc Text → Text → Option Text → Assoc Text
put_some tools root none = tools
put_some tools root (some tool) = put tools root tool

abbrev warn_ignored : List Text → Text → Option (Assoc OpencodeSettings) → List Text
warn_ignored messages root none = messages
warn_ignored messages root (some _) = messages ++ per_source_configuration_path root ∷ []

abbrev pub gather : Gathered → Text → Option ParsedConfigurationFile → Gathered
gather so_far root none = record so_far {
  per_repository_limits = so_far.per_repository_limits ++ none ∷ [];
}
gather so_far root (some parsed) = record {
  per_repository_limits = so_far.per_repository_limits ++ some parsed.resource_limits ∷ [];
  per_repository_default_tools =
      put_some so_far.per_repository_default_tools root parsed.default_tool;
  ignored_tool_configuration =
      warn_ignored so_far.ignored_tool_configuration root parsed.tool_configuration;
}

abbrev default_tool_of : Option ParsedConfigurationFile → Option Text
default_tool_of none = none
default_tool_of (some parsed) = parsed.default_tool

abbrev tool_configuration_of : Option ParsedConfigurationFile → Option (Assoc OpencodeSettings)
tool_configuration_of none = none
tool_configuration_of (some parsed) = parsed.tool_configuration

-- The blocks are copied; a copy is the same value here.
unfoldable pub normalize_loaded_tool_configuration :
    Option (Assoc OpencodeSettings) → Assoc OpencodeSettings
normalize_loaded_tool_configuration parsed = or_else parsed []

module _ (yaml_parse : Text → Result Text Json) (disk : Text → OnDisk) where
  unfoldable pub load_repositories : Gathered → List Text → Result ConfigurationError Gathered
  load_repositories so_far [] = ok so_far
  load_repositories so_far (repository_root ∷ repository_roots) = do
    parsed ←
        load_full_configuration_file yaml_parse
          (disk (per_source_configuration_path repository_root))
    load_repositories (gather so_far repository_root parsed) repository_roots

  unfoldable pub load_configuration :
      Option Text → (homedir : Text) → List Text → Result ConfigurationError (Loaded × List Text)
  unfolding load_repositories
  load_configuration patchlab_home homedir repository_roots = do
    user_global ←
        load_full_configuration_file yaml_parse
          (disk (user_global_configuration_path patchlab_home homedir))
    gathered ← load_repositories nothing_gathered repository_roots
    ok (
      record {
        limits = record {
          user_global = limits_of user_global;
          per_source = compose_per_source_loaded_resource_limits gathered.per_repository_limits;
        };
        default_tool = default_tool_of user_global;
        tool_configuration =
            normalize_loaded_tool_configuration (tool_configuration_of user_global);
        per_repository_default_tools = gathered.per_repository_default_tools;
      },
      gathered.ignored_tool_configuration,
    )
