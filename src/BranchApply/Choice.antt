-- ===== src/BranchApply/Choice.antt =====
-- resolve_apply_repository of src/branch/apply.ts.
use patchlab.Common.{
  Text, ◌≡◌, ◌≢◌, refl, arith, All, text_eq, text_eq_refl, has, lower, Bool, true, false, ◌||◌,
  List, [], ◌∷◌, map, Option, none, some, Result, ok, err, if◌then◌else◌, find_first,
}
use patchlab.PathContainment.{unify_separator}
use patchlab.Manifest.{SandboxManifest, manifest_repositories}

pub data Platform : Type 0 where
  windows darwin posix : Platform

unfoldable pub paths_equal : Platform → Text → Text → Bool
paths_equal windows a b =
    text_eq a b || text_eq (map lower (map unify_separator a)) (map lower (map unify_separator b))
paths_equal darwin a b = text_eq a b || text_eq (map lower a) (map lower b)
paths_equal posix a b = text_eq a b

pub data RepositoryError : Type 0 where
  several_repositories : (choices : List Text) → RepositoryError
  not_in_repositories : (resolved_input : Text) (choices : List Text) → RepositoryError

abbrev pub only_repository : List Text → Result RepositoryError Text
only_repository (repository ∷ []) = ok repository
only_repository repositories = err (several_repositories repositories)

abbrev pub matched_repository : Text → List Text → Option Text → Result RepositoryError Text
matched_repository resolved_input repositories none =
    err (not_in_repositories resolved_input repositories)
matched_repository resolved_input repositories (some match) = ok match

-- `resolve` is `path.resolve`.
unfoldable pub resolve_apply_repository :
    Platform
    → (resolve : Text → Text) → SandboxManifest
    → (supplied_value : Option Text) → Result RepositoryError Text
resolve_apply_repository platform resolve manifest none =
    only_repository (manifest_repositories manifest)
resolve_apply_repository platform resolve manifest (some supplied) =
    matched_repository (resolve supplied) (manifest_repositories manifest) (
      find_first (λ repository. paths_equal platform repository (resolve supplied))
        (manifest_repositories manifest))

-- What there is to say of an answer for the repositories
abbrev pub IsChoice :
    (same : Text → Text → Bool)
    → (resolve : Text → Text) → List Text
    → Option Text
    → Result RepositoryError Text
    → Type 0
IsChoice same resolve repositories none (ok root) = repositories ≡ root ∷ []
IsChoice same resolve repositories none (err thrown) = (root : Text) → repositories ≢ root ∷ []
IsChoice same resolve repositories (some supplied) (ok root) =
    (has repositories root ≡ true) × (same root (resolve supplied) ≡ true)
IsChoice same resolve repositories (some supplied) (err thrown) =
    All (λ root. same root (resolve supplied) ≡ false) repositories

only_repository-IsChoice :
    (same : Text → Text → Bool) (resolve : Text → Text) (repositories : List Text)
    → IsChoice same resolve repositories none (only_repository repositories)
only_repository-IsChoice same resolve [] = λ root (h : [] ≡ root ∷ []). cc
only_repository-IsChoice same resolve (root ∷ []) = refl
only_repository-IsChoice same resolve (first ∷ second ∷ rest) =
    λ root (h : first ∷ second ∷ rest ≡ root ∷ []). cc

matched_repository-IsChoice :
    (same : Text → Text → Bool) (resolve : Text → Text) (supplied : Text)
    (repositories all : List Text)
    → IsChoice same resolve repositories (some supplied) (
        matched_repository
          (resolve supplied)
          all
          (find_first (λ repository. same repository (resolve supplied)) repositories))
unfolding has
matched_repository-IsChoice same resolve supplied [] all = tt
matched_repository-IsChoice same resolve supplied (root ∷ roots) all =
    decide (same root (resolve supplied)) refl
      (find_first (λ repository. same repository (resolve supplied)) roots)
      (matched_repository-IsChoice same resolve supplied roots all)
  where
    decide :
        (equal : Bool)
        → same root (resolve supplied) ≡ equal
        → (found : Option Text)
        → IsChoice same resolve roots
            (some supplied)
            (matched_repository (resolve supplied) all found)
        → IsChoice same resolve
            (root ∷ roots)
            (some supplied)
            (matched_repository (resolve supplied) all (if equal then some root else found))
    decide true h found rest = (rw (text_eq_refl root) refl, h)
    decide false h none rest = (h, rest)
    decide false h (some match) (there, equal) = (ground (arith, there), equal)

-- Without a value `resolve_apply_repository` answers the patchlab's repository where there is exactly
-- one, and throws otherwise. With a value it answers a repository of the patchlab that is equal for the
-- platform to the value's resolved path, and throws exactly where none is.
pub resolve_apply_repository-IsChoice :
    (platform : Platform) (resolve : Text → Text) (manifest : SandboxManifest)
    (supplied_value : Option Text)
    → IsChoice
        (paths_equal platform)
        resolve
        (manifest_repositories manifest)
        supplied_value
        (resolve_apply_repository platform resolve manifest supplied_value)
unfolding resolve_apply_repository
resolve_apply_repository-IsChoice platform resolve manifest none =
    only_repository-IsChoice (paths_equal platform) resolve (manifest_repositories manifest)
resolve_apply_repository-IsChoice platform resolve manifest (some supplied) =
    matched_repository-IsChoice (paths_equal platform) resolve supplied
      (manifest_repositories manifest) (manifest_repositories manifest)
