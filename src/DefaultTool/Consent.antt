-- ===== src/DefaultTool/Consent.antt =====
-- Nothing but the user's consent lets a repository choose the tool (src/tools/default_tool_trust.ts).
use patchlab.Common.{
  ◌≡◌, ◌≢◌, refl, sym, ◌∙◌, ℕ, zero, suc, Text, text_eq, text_eq_iff, Bool, true, false, not, List,
  [], ◌∷◌, ◌++◌, Option, none, some, ok, err, All, arith, if◌then◌else◌,
}
use mathlib.Core.Path.{subst}
use patchlab.Configuration.Load.{Loaded}
use patchlab.DefaultTool.{
  DefaultToolChoice, repository, fallback, Preferences, ParticipatingRepository,
  conflicting_default_tools, unknown_tool, declined, VerifyOptions, unanimous,
  collect_participating_repositories, resolve_fallback_tool_name, stored_choice, unchanged,
  ask_or_decline, by_preference, verify_tool, verify_participating, verify_per_source_default_tool,
  build_disclosure_lines, not_interactive,
}

-- How the user consented
pub data HasConsent (options : VerifyOptions) (stored : Option DefaultToolChoice) : Type 0 where
  remembered : stored ≡ some repository → HasConsent options stored
  allowed :
      options.prompter ≡ none
      → options.allow_untrusted_default_tool ≡ true
      → HasConsent options stored
  chosen : options.prompter ≡ some (some 0) → HasConsent options stored

unanimous-All :
    (tool : Text) (participating : List ParticipatingRepository)
    → unanimous tool participating ≡ true
    → All (λ entry. entry.tool_name ≡ tool) participating
unanimous-All tool [] h = tt
unanimous-All tool (entry ∷ rest) h = (
  (text_eq_iff entry.tool_name tool).0 (ground (arith, h)),
  unanimous-All tool rest (ground (arith, h)),
)

module _ (realpath state_key : Text → Text) (now : Text) (is_registered : Text → Bool)
    (options : VerifyOptions) (preferences : Preferences) where
  -- The tool of a repository that is adopted
  pub record IsAdopted (participating : List ParticipatingRepository) (fallback_tool tool : Text)
      : Type 0 where
    pub some_repository : participating ≢ []
    pub agreed : All (λ entry. entry.tool_name ≡ tool) participating
    pub another : tool ≢ fallback_tool
    pub registered : is_registered tool ≡ true
    pub consent :
        HasConsent options (stored_choice realpath state_key preferences participating tool)

  -- What the preference, or else the user, makes of the tool
  decided-HasConsent :
      (participating : List ParticipatingRepository) (tool fallback_tool adopted : Text)
      (stored : Option DefaultToolChoice)
      → (by_preference realpath state_key now is_registered options preferences participating tool
          fallback_tool stored).result
        ≡ ok (some adopted)
      → (tool ≡ adopted) × HasConsent options stored
  decided-HasConsent participating tool fallback_tool adopted (some repository) h =
      (ground (arith, h), remembered refl)
  decided-HasConsent participating tool fallback_tool adopted (some fallback) h = cc
  decided-HasConsent participating tool fallback_tool adopted none h =
      prompted options.prompter refl h
    where
      allowed_or_declined :
          (allow : Bool)
          → options.prompter ≡ none
          → options.allow_untrusted_default_tool ≡ allow
          → (if allow
              then unchanged realpath state_key now is_registered options preferences
                  (ok (some tool))
                  []
              else unchanged realpath state_key now is_registered options preferences
                  (err declined)
                  (build_disclosure_lines participating tool fallback_tool
                    ++ not_interactive ∷ [])).result
            ≡ ok (some adopted)
          → (tool ≡ adopted) × HasConsent options none
      allowed_or_declined true p e h = (ground (arith, h), allowed p e)
      allowed_or_declined false p e h = cc

      prompted :
          (prompter : Option (Option ℕ))
          → options.prompter ≡ prompter
          → (ask_or_decline realpath state_key now is_registered options preferences participating
              tool fallback_tool prompter).result
            ≡ ok (some adopted)
          → (tool ≡ adopted) × HasConsent options none
      prompted none p h = allowed_or_declined options.allow_untrusted_default_tool p refl h
      prompted (some none) p h = cc
      prompted (some (some zero)) p h = (ground (arith, h), chosen p)
      prompted (some (some (suc zero))) p h = cc
      prompted (some (some (suc (suc n)))) p h = cc

  verify_tool-IsAdopted :
      (participating : List ParticipatingRepository) (tool fallback_tool adopted : Text)
      → participating ≢ []
      → (verify_tool realpath state_key now is_registered options preferences participating tool
          fallback_tool).result
        ≡ ok (some adopted)
      → IsAdopted participating fallback_tool adopted
  verify_tool-IsAdopted participating tool fallback_tool adopted nonempty h =
      decide (unanimous tool participating) refl (text_eq tool fallback_tool) refl
        (is_registered tool) refl h
    where
      decide :
          (all : Bool)
          → unanimous tool participating ≡ all
          → (same : Bool) → text_eq tool fallback_tool ≡ same
          → (known : Bool) → is_registered tool ≡ known
          → (if not all
              then unchanged realpath state_key now is_registered options preferences
                  (err (conflicting_default_tools participating))
                  []
              else if same
              then unchanged realpath state_key now is_registered options preferences (ok none) []
              else if not known
              then unchanged realpath state_key now is_registered options preferences
                  (err (unknown_tool tool))
                  []
              else by_preference realpath state_key now is_registered options preferences
                  participating tool fallback_tool
                  (stored_choice realpath state_key preferences participating tool)).result
            ≡ ok (some adopted)
          → IsAdopted participating fallback_tool adopted
      decide false p same q known r h = cc
      decide true p true q known r h = cc
      decide true p false q false r h = cc
      decide true p false q true r h =
          let (e, consent) =
            decided-HasConsent participating tool fallback_tool adopted
              (stored_choice realpath state_key preferences participating tool) h in
          subst (λ t. IsAdopted participating fallback_tool t) e
            (record {
              some_repository = nonempty;
              agreed = unanimous-All tool participating p;
              another = λ (same : tool ≡ fallback_tool).
                  let bad = sym ((text_eq_iff tool fallback_tool).1 same) ∙ q in cc;
              registered = r;
              consent = consent;
            })

-- Where `verify_per_source_default_tool` lets the repositories' tool override the user's, at least one
-- repository names a tool, all that do name this one, it is registered, it is not the user's own
-- default, and the user consented: by a stored choice for the single repository, by the opt-in where no
-- one can be asked, or by choosing it when asked.
pub verify_per_source_default_tool-IsAdopted :
    (realpath state_key : Text → Text) (now : Text) (is_registered : Text → Bool)
    (options : VerifyOptions) (preferences : Preferences) (roots : List Text) (loaded : Loaded)
    (adopted : Text)
    → (verify_per_source_default_tool realpath state_key now is_registered options preferences roots
        loaded).result
      ≡ ok (some adopted)
    → IsAdopted realpath state_key now is_registered options preferences
        (collect_participating_repositories roots loaded)
        (resolve_fallback_tool_name loaded)
        adopted
unfolding verify_per_source_default_tool
verify_per_source_default_tool-IsAdopted realpath state_key now is_registered options preferences
      roots loaded adopted h =
    participate (collect_participating_repositories roots loaded) h
  where
    participate :
        (participating : List ParticipatingRepository)
        → (verify_participating realpath state_key now is_registered options preferences
            participating
            (resolve_fallback_tool_name loaded)).result
          ≡ ok (some adopted)
        → IsAdopted realpath state_key now is_registered options preferences participating
            (resolve_fallback_tool_name loaded)
            adopted
    participate [] h = cc
    participate (entry ∷ rest) h =
        verify_tool-IsAdopted realpath state_key now is_registered options preferences
          (entry ∷ rest) entry.tool_name (resolve_fallback_tool_name loaded) adopted (λ e. cc) h
