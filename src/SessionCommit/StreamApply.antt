-- ===== src/SessionCommit/StreamApply.antt =====
-- src/branch/session_commit.ts, `stream_apply_from_sandbox`: the promise that two child processes
-- settle. The events of the children come in any order; each step is one event handler.
pub mod Laws
use patchlab.Common.{
  ℕ, Text, Bool, true, false, List, [], ◌∷◌, Option, none, some, ◌==◌, if◌then◌else◌, ◌||◌, not,
}

-- How a child ended: its exit code, null where a signal killed it, and the signal's name.
pub record Exit : Type 0 where
  pub code : Option ℕ
  pub signal : Option Text

pub data Failure : Type 0 where
  git_apply_failed : Exit → Failure
  cat_failed : Exit → Failure
  child_error : Failure

pub data Promise : Type 0 where
  pending resolved : Promise
  rejected : Failure → Promise

pub record Children : Type 0 where
  pub cat_closed : Bool
  pub apply_closed : Bool
  pub cat_exit : Exit
  pub apply_exit : Exit
  pub killed : Bool
  pub promise : Promise

pub data Event : Type 0 where
  cat_close apply_close : Exit → Event
  cat_error apply_error rewriter_error : Event

abbrev no_exit : Exit
no_exit = record { code = none; signal = none }

abbrev pub spawned : Children
spawned = record {
  cat_closed = false;
  apply_closed = false;
  cat_exit = no_exit;
  apply_exit = no_exit;
  killed = false;
  promise = pending;
}

-- `resolve` and `reject` act on a pending promise alone.
abbrev settle_as : Promise → Promise → Promise
settle_as pending outcome = outcome
settle_as resolved outcome = resolved
settle_as (rejected f) outcome = rejected f

pub fail : Failure → Children → Children
fail f s = record s { killed = true; promise = settle_as s.promise (rejected f) }

-- `code === 0`
abbrev pub is_success : Exit → Bool
is_success e = elim e.code [ none ↦ false | some n ↦ n == 0 ]

unfoldable pub settle : Children → Children
settle s =
    if not s.cat_closed || not s.apply_closed
    then s
    else if not (is_success s.apply_exit)
    then fail (git_apply_failed s.apply_exit) s
    else if not (is_success s.cat_exit)
    then fail (cat_failed s.cat_exit) s
    else record s { promise = settle_as s.promise resolved }

unfoldable pub handle : Children → Event → Children
handle s (cat_close e) = settle (record s { cat_closed = true; cat_exit = e })
handle s (apply_close e) = settle (record s { apply_closed = true; apply_exit = e })
handle s cat_error = fail child_error s
handle s apply_error = fail child_error s
handle s rewriter_error = fail child_error s

unfoldable pub run : Children → List Event → Children
run s [] = s
run s (e ∷ events) = run (handle s e) events
