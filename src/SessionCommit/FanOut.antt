-- ===== src/SessionCommit/FanOut.antt =====
-- src/branch/session_commit.ts: the fan-out of a session's diff to the host repositories.
-- The container, git, the file system and the user are a `Host`: what each call answers, or the
-- error that it throws. A run keeps the list of the calls that it made, the latest first.
pub mod Laws
pub mod Total
pub mod Maps
pub mod Session
pub mod Effects
use patchlab.Common.{
  ℕ, ◌*◌, Text, codes, text_eq, Bool, true, false, List, [], ◌∷◌, ◌++◌, map, Option, none, some,
  Result, ok, err, leb, ◌==◌, if◌then◌else◌, filterb, anyb, not, Assoc, put, get, or_else,
}
use patchlab.Manifest.{SourceSpecification, distinct_repositories_from_sources}
use patchlab.DiffRewrite.{PathRewriteEntry}
use patchlab.SessionCommit.FanOut.Effects.{
  Call, staged, sliced, asked, copied_to_fallback, checked_branch, resolved_tip, read_tree, applied,
  wrote_tree, resolved_parent_tree, committed, updated_ref, cleaned_up, unlinked_index, warned,
  advanced_head, M, pure, call, note, try_catch, finally, ◌>>=◌, ◌>>◌,
}

-- What the collaborators answer for one repository.
pub record RepositoryHost : Type 0 where
  pub slice : (pathspecs : List Text) → Result Text ℕ
  -- `confirm_oversized`, where the caller supplies it
  pub confirm_oversized : Option (ℕ → Result Text Bool)
  pub copy_to_fallback : Result Text Text
  pub branch_exists : Bool
  pub branch_tip : Result Text Text
  -- The temporary index is a text that only git reads: each command answers the one it leaves.
  pub read_tree : (tree_ish : Text) → Result Text Text
  pub stream_apply : Option (List PathRewriteEntry) → (index : Text) → Result Text Text
  pub write_tree : (index : Text) → Result Text Text
  -- `git rev-parse <commit>^{tree}`
  pub parent_tree : (commit : Text) → Result Text Text
  pub commit_tree : (tree parent : Text) → Result Text Text
  -- `git update-ref` of the patchlab's branch
  pub update_ref : (commit_sha : Text) → Result Text (Unit {0})

pub record RepositorySliceResult : Type 0 where
  pub commit_sha : Option Text
  pub fallback_path : Option Text

abbrev pub default_max_diff_bytes : ℕ
default_max_diff_bytes = 256 * 1024 * 1024

-- The pathspecs of the slice: the whole diff where there is none
pub pathspecs : List Text → List Text
pathspecs mount_names =
    map (λ name. name ++ codes "/") (filterb (λ name. not (text_eq name [])) mount_names)

-- `undefined` where every source is mounted under its prefix
pub build_repository_path_rewriter : List SourceSpecification → Option (List PathRewriteEntry)
build_repository_path_rewriter sources =
    if anyb (λ source. not (text_eq source.mount_name source.source_prefix)) sources
    then some (
        map
          (λ source. record {
            mount_name = source.mount_name;
            source_prefix = source.source_prefix;
          })
          sources)
    else none

module _ (host : RepositoryHost) where
  -- The copy of a slice for the user, with the warning that names it
  unfoldable pub save_fallback : M RepositorySliceResult
  save_fallback = do
    fallback ← call copied_to_fallback host.copy_to_fallback
    note warned
    pure (record { commit_sha = none; fallback_path = some fallback })

  -- The answer of the confirmation hook, `false` where there is none
  abbrev confirmed : ℕ → Option (ℕ → Result Text Bool) → M Bool
  confirmed size none = pure false
  confirmed size (some confirm) = call asked (confirm size)

  abbrev proceed_or_save : Bool → M (Option RepositorySliceResult)
  proceed_or_save true = pure none
  proceed_or_save false = do result ← save_fallback; pure (some result)

  unfoldable pub handle_oversized_slice : (size cap : ℕ) → M (Option RepositorySliceResult)
  handle_oversized_slice size cap =
      if leb size cap
      then pure none
      else do proceed ← confirmed size host.confirm_oversized; proceed_or_save proceed

  unfoldable pub handle_missing_branch : M (Option RepositorySliceResult)
  handle_missing_branch = do
    exists ← call checked_branch (ok host.branch_exists)
    proceed_or_save exists

  abbrev commit_changed_tree : (tree parent_tree branch_tip : Text) → M RepositorySliceResult
  commit_changed_tree tree parent_tree branch_tip =
      if text_eq tree parent_tree
      then pure (record { commit_sha = none; fallback_path = none })
      else do
        commit_sha ← call committed (host.commit_tree tree branch_tip)
        call (updated_ref commit_sha) (host.update_ref commit_sha)
        pure (record { commit_sha = some commit_sha; fallback_path = none })

  -- The body of the inner `try`
  unfoldable pub apply_and_commit : Option (List PathRewriteEntry) → Text → M RepositorySliceResult
  apply_and_commit rewriter branch_tip = do
    index ← call read_tree (host.read_tree branch_tip)
    applied_index ← call applied (host.stream_apply rewriter index)
    tree ← call wrote_tree (host.write_tree applied_index)
    parent_tree ← call resolved_parent_tree (host.parent_tree branch_tip)
    commit_changed_tree tree parent_tree branch_tip

  unfoldable pub apply_and_commit_repository_slice :
      Option (List PathRewriteEntry) → M RepositorySliceResult
  apply_and_commit_repository_slice rewriter = do
    branch_tip ← call resolved_tip host.branch_tip
    finally unlinked_index
        (try_catch (apply_and_commit rewriter branch_tip) (λ error. save_fallback))

  abbrev unless_done :
      Option RepositorySliceResult → M RepositorySliceResult → M RepositorySliceResult
  unless_done none next = next
  unless_done (some result) next = pure result

  -- The body of the `try` of `fan_out_to_one_repository`
  unfoldable pub commit_slice : (size cap : ℕ) → List SourceSpecification → M RepositorySliceResult
  commit_slice size cap sources =
      if size == 0 then pure (record { commit_sha = none; fallback_path = none }) else do
        oversized_result ← handle_oversized_slice size cap
        unless_done oversized_result do
          missing_branch_result ← handle_missing_branch
          unless_done missing_branch_result
              (apply_and_commit_repository_slice (build_repository_path_rewriter sources))

  unfoldable pub fan_out_to_one_repository :
      (cap : ℕ) → List SourceSpecification → M RepositorySliceResult
  fan_out_to_one_repository cap sources = do
    size ← call sliced (host.slice (pathspecs (map (λ source. source.mount_name) sources)))
    finally cleaned_up (commit_slice size cap sources)

pub record CommitSessionResult : Type 0 where
  pub commit_shas : Assoc (Option Text)
  pub fallback_patches : Assoc (Option Text)

-- The whole host: its answers for each repository, and those for the container.
pub record SessionHost : Type 0 where
  pub repository : Text → RepositoryHost
  pub stage : Result Text (Unit {0})
  pub advance_head : Result Text (Unit {0})

abbrev pub sources_of : Text → List SourceSpecification → List SourceSpecification
sources_of root = filterb (λ source. text_eq source.repository_root root)

module _ (host : SessionHost) (cap : ℕ) (sources : List SourceSpecification) where
  -- The loop over the repositories
  unfoldable pub fan_out : List Text → CommitSessionResult → M CommitSessionResult
  fan_out [] acc = pure acc
  fan_out (root ∷ repositories) acc = do
    result ← fan_out_to_one_repository (host.repository root) cap (sources_of root sources)
    fan_out repositories (record {
      commit_shas = put acc.commit_shas root result.commit_sha;
      fallback_patches = put acc.fallback_patches root result.fallback_path;
    })

-- A failure to advance the container's head is only reported.
unfoldable pub commit_session_to_branch :
    SessionHost
    → (max_diff_size_bytes : Option ℕ) → List SourceSpecification
    → M CommitSessionResult
commit_session_to_branch host max_diff_size_bytes sources = do
  call staged host.stage
  result ←
      fan_out host (or_else max_diff_size_bytes default_max_diff_bytes) sources
        (distinct_repositories_from_sources sources)
        (record { commit_shas = []; fallback_patches = [] })
  try_catch (call advanced_head host.advance_head) (λ error. note warned)
  pure result

-- The maps that `record_extraction_outcome` writes to the session's metadata
pub outcome_maps : List Text → CommitSessionResult → CommitSessionResult → CommitSessionResult
outcome_maps [] outcome next = next
outcome_maps (root ∷ repositories) outcome next = outcome_maps repositories outcome (record {
  commit_shas = put next.commit_shas root (or_else (get outcome.commit_shas root) none);
  fallback_patches =
      put next.fallback_patches root (or_else (get outcome.fallback_patches root) none);
})

-- The session's metadata that the write keeps, and the two maps that it replaces; `none` where there
-- is no metadata, which throws.
pub record SessionOutcome {ℓ} (Rest : Type ℓ) : Type ℓ where
  pub rest : Rest
  pub outcome : CommitSessionResult

pub record_extraction_outcome {ℓ} :
    {Rest : Type ℓ}
    → Option (SessionOutcome Rest)
    → List SourceSpecification
    → CommitSessionResult
    → Option (SessionOutcome Rest)
record_extraction_outcome none sources outcome = none
record_extraction_outcome (some existing) sources outcome = some (record existing {
  outcome =
      outcome_maps (distinct_repositories_from_sources sources) outcome
        (record { commit_shas = []; fallback_patches = [] });
})
