-- ===== src/BranchApply/Reported.antt =====
-- What a run of src/branch/apply.ts reports is what its commands did.
use patchlab.Common.{◌≡◌, List, [], ◌∷◌, ◌++◌, Option, none, some, ok, err}
use patchlab.BranchApply.{ApplyConflict, Command, Failure, Repository, Traced}

-- Every one of the commands succeeds where those before it have run.
abbrev pub AllSucceed : Repository → List Command → List Command → Type 0
AllSucceed repository before [] = Unit {0}
AllSucceed repository before (command ∷ commands) =
    (repository.run before command ≡ none) × AllSucceed repository (before ++ command ∷ []) commands

-- The commands of a result with that conflict
pub data HasRun (repository : Repository) : Option ApplyConflict → List Command → Type 0 where
  succeeded : {ran : List Command} → AllSucceed repository [] ran → HasRun repository none ran
  stopped :
      {conflict : ApplyConflict} (before : List Command) (last : Command) (failure : Failure)
      → AllSucceed repository [] before
      → repository.run before last ≡ some failure
      → HasRun repository (some conflict) (before ++ last ∷ [])

abbrev pub IsReported : Repository → Traced → Type 0
IsReported repository (ok result, ran) = HasRun repository result.conflict ran
IsReported repository (err message, ran) = AllSucceed repository [] ran
