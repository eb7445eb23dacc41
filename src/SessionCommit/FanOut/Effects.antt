-- ===== src/SessionCommit/FanOut/Effects.antt =====
-- Calls that may throw, with the list of the calls made, the latest first; `try`, `catch` and
-- `finally` as in src/branch/session_commit.ts.
pub mod Ensures
pub mod Returns
use patchlab.Common.{Text, List, [], ◌∷◌, Result, ok, err}

pub data Call : Type 0 where
  staged sliced asked copied_to_fallback checked_branch resolved_tip read_tree applied wrote_tree :
      Call
  resolved_parent_tree committed cleaned_up unlinked_index warned advanced_head : Call
  updated_ref : (commit_sha : Text) → Call

abbrev pub M {ℓ} : Type ℓ → Type ℓ
M A = List Call → Result Text A × List Call

module _ {ℓ} {A : Type ℓ} where
  unfoldable pub pure : A → M A
  pure a log = (ok a, log)

  -- A call with its answer
  unfoldable pub call : Call → Result Text A → M A
  call c answer log = (answer, c ∷ log)

  -- `finally` around a step that throws nothing
  unfoldable pub finally : Call → M A → M A
  finally c m log = let (r, log') = m log in (r, c ∷ log')

  abbrev pub recover : Result Text A → (Text → M A) → M A
  recover (ok a) handler log = (ok a, log)
  recover (err e) handler log = handler e log

  unfoldable pub try_catch : M A → (Text → M A) → M A
  try_catch m handler log = let (r, log') = m log in recover r handler log'

-- A step that throws nothing
unfoldable pub note : Call → M (Unit {0})
note c log = (ok tt, c ∷ log)

module _ {ℓ κ} {A : Type ℓ} {B : Type κ} where
  abbrev pub continue : Result Text A → (A → M B) → M B
  continue (ok a) f log = f a log
  continue (err e) f log = (err e, log)

  infixl 5 ◌>>=◌ ◌>>◌
  unfoldable pub ◌>>=◌ : M A → (A → M B) → M B
  ◌>>=◌ m f log = let (r, log') = m log in continue r f log'

  abbrev pub ◌>>◌ : M A → M B → M B
  m >> k = m >>= λ _. k
