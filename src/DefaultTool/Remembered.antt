-- ===== src/DefaultTool/Remembered.antt =====
-- A choice of the default tool is remembered (src/tools/default_tool_preference.ts).
use patchlab.Common.{
  ◌≡◌, ◌≢◌, refl, sym, ◌∙◌, ℕ, zero, suc, Text, text_eq, text_eq_refl, Bool, true, false, not, List,
  [], ◌∷◌, ◌++◌, Option, none, some, ok, err, get, put, get-put, if◌then◌else◌, ok-injective,
}
use mathlib.Core.Path.{subst}
use patchlab.Json.{get_member, object_of}
use patchlab.Configuration.Load.{Loaded}
use patchlab.DefaultTool.{
  DefaultToolChoice, repository, fallback, Preferences, ParticipatingRepository, VerifyOptions,
  Verified, settled_choice, preference_of, preference_json, parse_choice,
  read_default_tool_preference, write_default_tool_preference, write_preferences_for_participating,
  stored_choice, by_preference, on_answer, unanimous, verify_tool, unchanged,
  build_disclosure_lines, asked, ask_or_decline, Event, unknown_tool, verify_participating,
  verify_per_source_default_tool, resolve_fallback_tool_name, collect_participating_repositories,
}

-- What a choice makes of the tool
abbrev pub verdict : Text → DefaultToolChoice → Option Text
verdict tool repository = some tool
verdict tool fallback = none

settled_choice_written :
    (real_root : Text) (tool : Text) (choice : DefaultToolChoice) (now : Text)
    → tool ≢ []
    → settled_choice tool
        (preference_of real_root (some (preference_json tool choice now real_root)))
      ≡ some choice
unfolding preference_of get_member object_of text_eq parse_choice
settled_choice_written real_root [] choice now nonempty = absurd (nonempty refl)
settled_choice_written real_root (c ∷ cs) repository now nonempty = rw (text_eq_refl (c ∷ cs)) refl
settled_choice_written real_root (c ∷ cs) fallback now nonempty = rw (text_eq_refl (c ∷ cs)) refl

-- A preference that was written for a repository settles the same tool from then on.
pub settled_choice-write :
    (realpath state_key : Text → Text) (now : Text) (preferences : Preferences) (root tool : Text)
    (choice : DefaultToolChoice)
    → tool ≢ []
    → settled_choice tool (
        read_default_tool_preference realpath state_key
          (write_default_tool_preference realpath state_key now preferences root tool choice)
          root)
      ≡ some choice
unfolding read_default_tool_preference write_default_tool_preference
settled_choice-write realpath state_key now preferences root tool choice nonempty =
    let key = state_key root in
    let json = preference_json tool choice now (realpath root) in
    let found : get (put preferences key json) key ≡ some json =
      get-put preferences key key json ∙ rw (text_eq_refl key) refl in
    rw found (settled_choice_written (realpath root) tool choice now nonempty)

module _ (realpath state_key : Text → Text) (is_registered : Text → Bool)
    (entry : ParticipatingRepository) (fallback_tool : Text) where
  -- What a run on that single repository says
  abbrev pub run_single : Text → VerifyOptions → Preferences → Verified
  run_single now options preferences =
      verify_tool realpath state_key now is_registered options preferences (entry ∷ [])
        entry.tool_name fallback_tool

  -- The verdict stands on the preferences: every run on them gives it at once.
  abbrev pub Stands : Preferences → Option Text → Type 0
  Stands preferences adopted =
      (now : Text) (options : VerifyOptions)
      → run_single now options preferences
        ≡ record { result = ok adopted; preferences = preferences; events = [] }

  agreed : unanimous entry.tool_name (entry ∷ []) ≡ true
  agreed = rw (text_eq_refl entry.tool_name) refl

  usual-Stands :
      (preferences : Preferences)
      → text_eq entry.tool_name fallback_tool ≡ true
      → Stands preferences none
  usual-Stands preferences same now options = rw (agreed, same) refl

  stored-Stands :
      (preferences : Preferences) (choice : DefaultToolChoice)
      → text_eq entry.tool_name fallback_tool ≡ false
      → is_registered entry.tool_name ≡ true
      → stored_choice realpath state_key preferences (entry ∷ []) entry.tool_name ≡ some choice
      → Stands preferences (verdict entry.tool_name choice)
  stored-Stands preferences repository other known stored now options =
      rw (agreed, other, known, stored) refl
  stored-Stands preferences fallback other known stored now options =
      rw (agreed, other, known, stored) refl

  written-Stands :
      (now : Text) (preferences : Preferences) (choice : DefaultToolChoice)
      → entry.tool_name ≢ []
      → text_eq entry.tool_name fallback_tool ≡ false
      → is_registered entry.tool_name ≡ true
      → Stands
          (write_preferences_for_participating realpath state_key now preferences
            (entry ∷ [])
            entry.tool_name
            choice)
          (verdict entry.tool_name choice)
  unfolding write_preferences_for_participating
  written-Stands now preferences choice nonempty other known =
      stored-Stands
        (write_default_tool_preference realpath state_key now preferences entry.repository_root
          entry.tool_name choice)
        choice other known
        (settled_choice-write realpath state_key now preferences entry.repository_root
          entry.tool_name choice nonempty)

  module _ (now : Text) (options : VerifyOptions) (preferences : Preferences)
      (nonempty : entry.tool_name ≢ []) where
    -- What was answered stands.
    on_answer-Stands :
        (events : List Event) (answer : Option ℕ) (adopted : Option Text)
        → text_eq entry.tool_name fallback_tool ≡ false
        → is_registered entry.tool_name ≡ true
        → (on_answer realpath state_key now is_registered options preferences
            (entry ∷ [])
            entry.tool_name
            events
            answer).result
          ≡ ok adopted
        → Stands
            (on_answer realpath state_key now is_registered options preferences
              (entry ∷ [])
              entry.tool_name
              events
              answer).preferences
            adopted
    on_answer-Stands events none adopted other known h = cc
    on_answer-Stands events (some zero) adopted other known h =
        subst
          (Stands (
            write_preferences_for_participating realpath state_key now preferences (entry ∷ [])
              entry.tool_name repository))
          (ok-injective h) (written-Stands now preferences repository nonempty other known)
    on_answer-Stands events (some (suc zero)) adopted other known h =
        subst
          (Stands (
            write_preferences_for_participating realpath state_key now preferences (entry ∷ [])
              entry.tool_name fallback))
          (ok-injective h) (written-Stands now preferences fallback nonempty other known)
    on_answer-Stands events (some (suc (suc _))) adopted other known h = cc

    decided-Stands :
        (answer : Option ℕ) (stored : Option DefaultToolChoice) (adopted : Option Text)
        → options.prompter ≡ some answer
        → stored_choice realpath state_key preferences (entry ∷ []) entry.tool_name ≡ stored
        → text_eq entry.tool_name fallback_tool ≡ false
        → is_registered entry.tool_name ≡ true
        → (by_preference realpath state_key now is_registered options preferences
            (entry ∷ [])
            entry.tool_name
            fallback_tool
            stored).result
          ≡ ok adopted
        → Stands
            (by_preference realpath state_key now is_registered options preferences
              (entry ∷ [])
              entry.tool_name
              fallback_tool
              stored).preferences
            adopted
    decided-Stands answer (some repository) adopted p s other known h =
        subst (Stands preferences) (ok-injective h)
          (stored-Stands preferences repository other known s)
    decided-Stands answer (some fallback) adopted p s other known h =
        subst (Stands preferences) (ok-injective h)
          (stored-Stands preferences fallback other known s)
    decided-Stands answer none adopted p s other known h =
        subst
          (λ prompter.
            (ask_or_decline realpath state_key now is_registered options preferences (entry ∷ [])
                entry.tool_name fallback_tool prompter).result
              ≡ ok adopted
            → Stands
                (ask_or_decline realpath state_key now is_registered options preferences
                  (entry ∷ []) entry.tool_name fallback_tool prompter).preferences
                adopted)
          (sym p)
          (on_answer-Stands
            (build_disclosure_lines (entry ∷ []) entry.tool_name fallback_tool ++ asked ∷ []) answer
            adopted other known)
          h

    run_single-Stands :
        (answer : Option ℕ) (adopted : Option Text)
        → options.prompter ≡ some answer
        → (run_single now options preferences).result ≡ ok adopted
        → Stands (run_single now options preferences).preferences adopted
    run_single-Stands answer adopted p h =
        subst (λ verified. verified.result ≡ ok adopted → Stands verified.preferences adopted)
          (sym by_unanimity)
          (decide (text_eq entry.tool_name fallback_tool) refl (is_registered entry.tool_name) refl)
          h
      where
        by_unanimity : run_single now options preferences ≡ (
            if text_eq entry.tool_name fallback_tool
            then unchanged realpath state_key now is_registered options preferences (ok none) []
            else if not (is_registered entry.tool_name)
            then unchanged realpath state_key now is_registered options preferences
                (err (unknown_tool entry.tool_name))
                []
            else by_preference realpath state_key now is_registered options preferences
                (entry ∷ [])
                entry.tool_name
                fallback_tool
                (stored_choice realpath state_key preferences (entry ∷ []) entry.tool_name))
        by_unanimity = rw agreed refl

        decide :
            (same : Bool)
            → text_eq entry.tool_name fallback_tool ≡ same
            → (known : Bool) → is_registered entry.tool_name ≡ known
            → (if same
                then unchanged realpath state_key now is_registered options preferences (ok none) []
                else if not known
                then unchanged realpath state_key now is_registered options preferences
                    (err (unknown_tool entry.tool_name))
                    []
                else by_preference realpath state_key now is_registered options preferences
                    (entry ∷ [])
                    entry.tool_name
                    fallback_tool
                    (stored_choice realpath state_key preferences
                      (entry ∷ [])
                      entry.tool_name)).result
              ≡ ok adopted
            → Stands
                (if same
                  then unchanged realpath state_key now is_registered options preferences
                      (ok none)
                      []
                  else if not known
                  then unchanged realpath state_key now is_registered options preferences
                      (err (unknown_tool entry.tool_name))
                      []
                  else by_preference realpath state_key now is_registered options preferences
                      (entry ∷ [])
                      entry.tool_name
                      fallback_tool
                      (stored_choice realpath state_key preferences
                        (entry ∷ [])
                        entry.tool_name)).preferences
                adopted
        decide true q known r h =
            subst (Stands preferences) (ok-injective h) (usual-Stands preferences q)
        decide false q false r h = cc
        decide false q true r h =
            decided-Stands answer
              (stored_choice realpath state_key preferences (entry ∷ []) entry.tool_name) adopted p
              refl q r h

-- A question is asked once: where exactly one repository takes part, its tool is not empty, and
-- `verify_per_source_default_tool` ran with a prompter and did not throw, every later run on the
-- preferences it left, with whatever options, gives the same answer, warns of nothing, asks nothing and
-- leaves the preferences as they are.
pub verify_per_source_default_tool_remembered :
    (realpath state_key : Text → Text) (is_registered : Text → Bool) (roots : List Text)
    (loaded : Loaded) (entry : ParticipatingRepository) (now : Text) (options : VerifyOptions)
    (preferences : Preferences) (answer : Option ℕ) (adopted : Option Text) (later : Text)
    (later_options : VerifyOptions)
    → collect_participating_repositories roots loaded ≡ entry ∷ []
    → entry.tool_name ≢ []
    → options.prompter ≡ some answer
    → (verify_per_source_default_tool realpath state_key now is_registered options preferences roots
        loaded).result
      ≡ ok adopted
    → (let left =
          (verify_per_source_default_tool realpath state_key now is_registered options preferences
            roots loaded).preferences in
        verify_per_source_default_tool realpath state_key later is_registered later_options left
          roots loaded
        ≡ record { result = ok adopted; preferences = left; events = [] })
unfolding verify_per_source_default_tool
verify_per_source_default_tool_remembered realpath state_key is_registered roots loaded entry now
      options preferences answer adopted later later_options collected nonempty p =
    subst
      (λ participating.
        (verify_participating realpath state_key now is_registered options preferences participating
            (resolve_fallback_tool_name loaded)).result
          ≡ ok adopted
        → (let left =
              (verify_participating realpath state_key now is_registered options preferences
                participating (resolve_fallback_tool_name loaded)).preferences in
            verify_participating realpath state_key later is_registered later_options left
              participating (resolve_fallback_tool_name loaded)
            ≡ record { result = ok adopted; preferences = left; events = [] }))
      (sym collected)
      (λ h.
        run_single-Stands realpath state_key is_registered entry (resolve_fallback_tool_name loaded)
          now options preferences nonempty answer adopted p h later later_options)
