-- ===== src/DefaultTool.antt =====
-- src/tools/default_tool.ts, src/tools/default_tool_preference.ts and src/tools/default_tool_trust.ts:
-- which tool a sandbox is created with, and when a repository may choose it.
-- The files of preferences are a map from `repository_state_key` to what they parse to; a file that
-- cannot be read or parsed is absent from it. `realpath` is `repository_realpath`, `state_key` its hash.
-- A write of a preference succeeds here; what a failing disk throws is left out.
pub mod Consent
pub mod Remembered
mod Tests
use patchlab.Common.{
  ℕ, zero, suc, Text, codes, text_eq, has, Bool, true, false, not, ◌||◌, List, [], ◌∷◌, ◌++◌, map,
  Option, none, some, or_else, Result, ok, err, Assoc, get, put, if◌then◌else◌,
}
use patchlab.Json.{
  Json, null, boolean, number, string, array, object, Members, get_member, object_of,
}
use patchlab.Configuration.File.{opencode_tool_name}
use patchlab.Configuration.Load.{Loaded}

abbrev pub default_builtin_tool : Text
default_builtin_tool = opencode_tool_name

-- A text that is there and not empty, or else the default
abbrev pub nonempty_or : Option Text → Text → Text
nonempty_or none default = default
nonempty_or (some []) default = default
nonempty_or (some (c ∷ cs)) default = c ∷ cs

unfoldable pub resolve_fallback_tool_name : Loaded → Text
resolve_fallback_tool_name loaded = nonempty_or loaded.default_tool default_builtin_tool

-- The outer option of the override is whether `verify_per_source_default_tool` ran.
abbrev pub override_or : Option (Option Text) → Text → Text
override_or none fallback = fallback
override_or (some override) fallback = nonempty_or override fallback

unfoldable pub resolve_create_tool_name : Option Text → Loaded → Option (Option Text) → Text
resolve_create_tool_name cli_tool loaded per_source_override =
    nonempty_or cli_tool
      (override_or per_source_override (nonempty_or loaded.default_tool default_builtin_tool))

pub data DefaultToolChoice : Type 0 where
  repository fallback : DefaultToolChoice

pub record DefaultToolPreference : Type 0 where
  pub value : Text
  pub choice : DefaultToolChoice
  pub decided_at : Text
  pub repository_root : Text

abbrev pub Preferences : Type 0
Preferences = Assoc Json

abbrev pub choice_of : Text → Option DefaultToolChoice
choice_of raw =
    if text_eq raw (codes "repository")
    then some repository
    else if text_eq raw (codes "fallback")
    then some fallback
    else none

unfoldable pub parse_choice : Option Json → Option DefaultToolChoice
parse_choice (some (string raw)) = choice_of raw
parse_choice _ = none

abbrev string_or : Option Json → Text → Text
string_or (some (string text)) default = text
string_or _ default = default

abbrev chosen_preference :
    Text
    → Option DefaultToolChoice
    → (decided_at repository_root : Text) → Option DefaultToolPreference
chosen_preference value none decided_at repository_root = none
chosen_preference value (some choice) decided_at repository_root = some (record {
  value = value;
  choice = choice;
  decided_at = decided_at;
  repository_root = repository_root;
})

abbrev valued_preference :
    Option Json
    → Option DefaultToolChoice
    → (decided_at repository_root : Text) → Option DefaultToolPreference
valued_preference (some (string (c ∷ cs))) choice decided_at repository_root =
    chosen_preference (c ∷ cs) choice decided_at repository_root
valued_preference _ choice decided_at repository_root = none

-- A file that is no object, or has no value or choice, is as good as none.
unfoldable pub preference_of : Text → Option Json → Option DefaultToolPreference
preference_of real_root (some (object record_)) =
    valued_preference (get_member record_ (codes "value"))
      (parse_choice (get_member record_ (codes "choice")))
      (string_or (get_member record_ (codes "decided_at")) [])
      (string_or (get_member record_ (codes "repository_root")) real_root)
preference_of real_root _ = none

abbrev choice_text : DefaultToolChoice → Text
choice_text repository = codes "repository"
choice_text fallback = codes "fallback"

abbrev pub preference_json : (value : Text) → DefaultToolChoice → (now real_root : Text) → Json
preference_json value choice now real_root = object (
    object_of (
      (codes "value", string value)
      ∷ (codes "choice", string (choice_text choice))
      ∷ (codes "decided_at", string now)
      ∷ (codes "repository_root", string real_root)
      ∷ []))

pub record ParticipatingRepository : Type 0 where
  pub repository_root : Text
  pub tool_name : Text

abbrev with_tool : Text → Option Text → List ParticipatingRepository → List ParticipatingRepository
with_tool root none rest = rest
with_tool root (some tool) rest = record { repository_root = root; tool_name = tool } ∷ rest

unfoldable pub collect_participating_repositories :
    List Text → Loaded → List ParticipatingRepository
collect_participating_repositories [] loaded = []
collect_participating_repositories (root ∷ roots) loaded =
    with_tool root (get loaded.per_repository_default_tools root)
      (collect_participating_repositories roots loaded)

-- Whether every one of them names the tool; else there are several unique names.
abbrev pub unanimous : Text → List ParticipatingRepository → Bool
unanimous tool [] = true
unanimous tool (entry ∷ rest) = if text_eq entry.tool_name tool then unanimous tool rest else false

pub data DefaultToolError : Type 0 where
  conflicting_default_tools : List ParticipatingRepository → DefaultToolError
  unknown_tool : (tool_name : Text) → DefaultToolError
  declined : DefaultToolError
  aborted : DefaultToolError

-- none is no prompter; the answer of one is the index that is chosen, if one is.
abbrev pub Prompter : Type 0
Prompter = Option (Option ℕ)

pub data Event : Type 0 where
  warned : Text → Event
  asked : Event

pub record VerifyOptions : Type 0 where
  pub allow_untrusted_default_tool : Bool
  pub prompter : Prompter

unfoldable pub resolve_allow_untrusted_default_tool_from : Bool → Option Text → Bool
resolve_allow_untrusted_default_tool_from flag variable =
    flag || elim variable [ none ↦ false | some text ↦ text_eq text (codes "1") ]

abbrev root_line : ParticipatingRepository → Event
root_line entry = warned (codes "  - " ++ entry.repository_root)

abbrev pub build_disclosure_lines :
    List ParticipatingRepository → (unanimous_tool_name fallback_tool_name : Text) → List Event
build_disclosure_lines participating tool fallback_tool =
    warned (codes "Per-source default_tool conflicts with your usual tool choice.")
      ∷ warned (codes "Proposed tool: " ++ tool)
      ∷ warned (codes "Your default without this repository: " ++ fallback_tool)
      ∷ warned []
      ∷ warned (codes "Participating repositories:")
      ∷ map root_line participating
    ++ warned [] ∷ []

abbrev pub not_interactive : Event
not_interactive = warned (
    codes
      "Non-interactive context: pass --tool or --allow-untrusted-default-tool (or PATCHLAB_ALLOW_UNTRUSTED_DEFAULT_TOOL=1) to proceed.")

pub record Verified : Type 0 where
  pub result : Result DefaultToolError (Option Text)
  pub preferences : Preferences
  pub events : List Event

-- What a stored preference for that very tool settles
abbrev pub settled_choice : Text → Option DefaultToolPreference → Option DefaultToolChoice
settled_choice tool none = none
settled_choice tool (some stored) = if text_eq stored.value tool then some stored.choice else none

module _ (realpath state_key : Text → Text) where
  unfoldable pub read_default_tool_preference : Preferences → Text → Option DefaultToolPreference
  read_default_tool_preference preferences root =
      preference_of (realpath root) (get preferences (state_key root))

  unfoldable pub write_default_tool_preference :
      (now : Text) → Preferences → Text → (value : Text) → DefaultToolChoice → Preferences
  write_default_tool_preference now preferences root value choice =
      put preferences (state_key root) (preference_json value choice now (realpath root))

  unfoldable pub write_preferences_for_participating :
      (now : Text)
      → Preferences
      → List ParticipatingRepository
      → Text
      → DefaultToolChoice
      → Preferences
  unfolding write_default_tool_preference
  write_preferences_for_participating now preferences [] tool choice = preferences
  write_preferences_for_participating now preferences (entry ∷ rest) tool choice =
      write_preferences_for_participating now
        (write_default_tool_preference now preferences entry.repository_root tool choice) rest tool
        choice

  -- The preference of a single participating repository
  abbrev pub stored_choice :
      Preferences → List ParticipatingRepository → Text → Option DefaultToolChoice
  stored_choice preferences (entry ∷ []) tool =
      settled_choice tool (read_default_tool_preference preferences entry.repository_root)
  stored_choice preferences _ tool = none

  module _ (now : Text) (is_registered : Text → Bool) (options : VerifyOptions)
      (preferences : Preferences) where
    abbrev pub unchanged : Result DefaultToolError (Option Text) → List Event → Verified
    unchanged result events = record { result = result; preferences = preferences; events = events }

    -- Behind the question; the index is that of the label.
    abbrev pub on_answer : List ParticipatingRepository → Text → List Event → Option ℕ → Verified
    on_answer participating tool events none = unchanged (err aborted) events
    on_answer participating tool events (some zero) = record {
      result = ok (some tool);
      preferences =
          write_preferences_for_participating now preferences participating tool repository;
      events = events;
    }
    on_answer participating tool events (some (suc zero)) = record {
      result = ok none;
      preferences = write_preferences_for_participating now preferences participating tool fallback;
      events = events;
    }
    on_answer participating tool events (some (suc (suc _))) = unchanged (err aborted) events

    -- Where no stored preference settles it
    abbrev pub ask_or_decline :
        List ParticipatingRepository → (tool fallback_tool : Text) → Prompter → Verified
    ask_or_decline participating tool fallback_tool none =
        if options.allow_untrusted_default_tool
        then unchanged (ok (some tool)) []
        else unchanged (err declined)
            (build_disclosure_lines participating tool fallback_tool ++ not_interactive ∷ [])
    ask_or_decline participating tool fallback_tool (some answer) =
        on_answer participating tool
          (build_disclosure_lines participating tool fallback_tool ++ asked ∷ []) answer

    abbrev pub by_preference :
        List ParticipatingRepository
        → (tool fallback_tool : Text) → Option DefaultToolChoice
        → Verified
    by_preference participating tool fallback_tool (some repository) = unchanged (ok (some tool)) []
    by_preference participating tool fallback_tool (some fallback) = unchanged (ok none) []
    by_preference participating tool fallback_tool none =
        ask_or_decline participating tool fallback_tool options.prompter

    abbrev pub verify_tool : List ParticipatingRepository → (tool fallback_tool : Text) → Verified
    verify_tool participating tool fallback_tool =
        if not (unanimous tool participating)
        then unchanged (err (conflicting_default_tools participating)) []
        else if text_eq tool fallback_tool
        then unchanged (ok none) []
        else if not (is_registered tool)
        then unchanged (err (unknown_tool tool)) []
        else by_preference participating tool fallback_tool
            (stored_choice preferences participating tool)

    abbrev pub verify_participating : List ParticipatingRepository → Text → Verified
    verify_participating [] fallback_tool = unchanged (ok none) []
    verify_participating (entry ∷ rest) fallback_tool =
        verify_tool (entry ∷ rest) entry.tool_name fallback_tool

    unfoldable pub verify_per_source_default_tool : List Text → Loaded → Verified
    verify_per_source_default_tool repository_roots loaded =
        verify_participating (collect_participating_repositories repository_roots loaded)
          (resolve_fallback_tool_name loaded)
