-- ===== src/DefaultTool/Tests.antt =====
-- Runs of src/tools/default_tool_trust.ts, and its theorems at concrete inputs.
use patchlab.Common.{
  ◌≡◌, refl, ap, Text, codes, text_eq, get, put, Bool, true, false, List, [], ◌∷◌, ◌++◌, none, some,
  ok, err,
}
use patchlab.Configuration.Load.{Loaded}
use patchlab.DefaultTool.{
  repository, Preferences, ParticipatingRepository, declined, VerifyOptions, preference_json,
  build_disclosure_lines, asked, parse_choice, preference_of, resolve_fallback_tool_name,
  resolve_create_tool_name, read_default_tool_preference, write_default_tool_preference,
  write_preferences_for_participating, collect_participating_repositories,
  verify_per_source_default_tool,
}
use patchlab.DefaultTool.Consent.{IsAdopted, verify_per_source_default_tool-IsAdopted}
use patchlab.DefaultTool.Remembered.{verify_per_source_default_tool_remembered}

abbrev path_itself : Text → Text
path_itself path = path

abbrev all_registered : Text → Bool
all_registered tool = true

abbrev web_loaded : Loaded
web_loaded = record {
  limits = record { user_global = none; per_source = none };
  default_tool = none;
  tool_configuration = [];
  per_repository_default_tools = (codes "/web", codes "claude") ∷ [];
}

abbrev web_entry : ParticipatingRepository
web_entry = record { repository_root = codes "/web"; tool_name = codes "claude" }

abbrev roots : List Text
roots = codes "/lib" ∷ codes "/web" ∷ []

abbrev asking : VerifyOptions
asking = record { allow_untrusted_default_tool = false; prompter = some (some 0) }

abbrev silent : VerifyOptions
silent = record { allow_untrusted_default_tool = false; prompter = none }

abbrev web_preferences : Preferences
web_preferences =
    (codes "/web", preference_json (codes "claude") repository (codes "now") (codes "/web")) ∷ []

collected_run : collect_participating_repositories roots web_loaded ≡ web_entry ∷ []
unfolding collect_participating_repositories text_eq get
collected_run = refl

chosen_run :
    verify_per_source_default_tool path_itself path_itself
      (codes "now")
      all_registered
      asking
      []
      roots
      web_loaded
    ≡ record {
      result = ok (some (codes "claude"));
      preferences = web_preferences;
      events =
          build_disclosure_lines (web_entry ∷ []) (codes "claude") (codes "opencode") ++ asked ∷ [];
    }
unfolding verify_per_source_default_tool collect_participating_repositories text_eq
    resolve_fallback_tool_name write_preferences_for_participating write_default_tool_preference
    read_default_tool_preference preference_of parse_choice get put
chosen_run = refl

-- Who cannot be asked declines.
declined_run :
    (verify_per_source_default_tool path_itself path_itself
      (codes "now")
      all_registered
      silent
      []
      roots
      web_loaded).result
    ≡ err declined
unfolding verify_per_source_default_tool collect_participating_repositories text_eq
    resolve_fallback_tool_name read_default_tool_preference preference_of parse_choice get
declined_run = refl

overridden_run :
    resolve_create_tool_name (some []) web_loaded (some (some (codes "claude"))) ≡ codes "claude"
unfolding resolve_create_tool_name
overridden_run = refl

verify_per_source_default_tool-IsAdopted_example :
    IsAdopted path_itself path_itself
      (codes "now")
      all_registered
      asking
      []
      (collect_participating_repositories roots web_loaded)
      (resolve_fallback_tool_name web_loaded)
      (codes "claude")
verify_per_source_default_tool-IsAdopted_example =
    verify_per_source_default_tool-IsAdopted path_itself path_itself (codes "now") all_registered
      asking [] roots web_loaded (codes "claude") (ap (λ v. v.result) chosen_run)

verify_per_source_default_tool_remembered_example :
    verify_per_source_default_tool path_itself path_itself
      (codes "later")
      all_registered
      silent
      (verify_per_source_default_tool path_itself path_itself
        (codes "now")
        all_registered
        asking
        []
        roots
        web_loaded).preferences
      roots
      web_loaded
    ≡ record {
      result = ok (some (codes "claude"));
      preferences =
          (verify_per_source_default_tool path_itself path_itself
            (codes "now")
            all_registered
            asking
            []
            roots
            web_loaded).preferences;
      events = [];
    }
verify_per_source_default_tool_remembered_example =
    verify_per_source_default_tool_remembered path_itself path_itself all_registered roots
      web_loaded web_entry (codes "now") asking [] (some 0) (some (codes "claude")) (codes "later")
      silent collected_run (λ e. cc) refl (ap (λ v. v.result) chosen_run)
