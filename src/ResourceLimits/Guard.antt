-- ===== src/ResourceLimits/Guard.antt =====
-- src/resource_limits.ts: the scan of the command line for negative values of limit flags.
pub mod Laws
use patchlab.Common.{
  ℕ, Text, codes, text_eq, has, is_digit, Bool, true, false, ◌&&◌, List, [], ◌∷◌, Option, none,
  some, ◌==◌, if◌then◌else◌,
}

abbrev pub resource_limit_flags : List Text
resource_limit_flags =
    codes "--memory" ∷ codes "--cpus" ∷ codes "--pids-limit" ∷ codes "--blkio-weight" ∷ []

-- `/^-\d/`
abbrev pub is_negative_number : Text → Bool
is_negative_number (c ∷ d ∷ _) = c == b'-' && is_digit d
is_negative_number _ = false

-- `next_token !== undefined && negative_number_pattern.test(next_token)`
abbrev pub next_is_negative : List Text → Bool
next_is_negative [] = false
next_is_negative (next_token ∷ _) = is_negative_number next_token

-- The flag whose value is negative, if there is one.
unfoldable pub argv_contains_resource_flag_negative : List Text → Option Text
argv_contains_resource_flag_negative [] = none
argv_contains_resource_flag_negative (token ∷ argv) =
    let rest = argv_contains_resource_flag_negative argv in
    if text_eq token (codes "--")
    then none
    else if has resource_limit_flags token
    then (if next_is_negative argv then some token else rest)
    else rest
