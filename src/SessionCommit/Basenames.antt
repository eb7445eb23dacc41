-- ===== src/SessionCommit/Basenames.antt =====
-- src/branch/session_commit.ts, `disambiguate_repository_basenames`: the names of fallback files.
-- `path.basename`, `fs.realpathSync` (absent where it throws) and the first eight digits of the
-- SHA-256 digest are parameters.
pub mod Laws
mod Tests
use patchlab.Common.{Text, codes, Assoc, get, put, List, [], ◌∷◌, ◌++◌, Option, none, some, or_else}

module _ (basename : Text → Text) (realpath : Text → Option Text) (digest : Text → Text) where
  abbrev or_repository : Text → Text
  or_repository [] = codes "repository"
  or_repository (c ∷ cs) = c ∷ cs

  abbrev pub name_of : Text → Text
  name_of root = or_repository (basename root)

  abbrev pub hashed : Text → Text → Text
  hashed name root = name ++ (b'_' ∷ digest (or_else (realpath root) root))

  -- The first loop: the repositories by their names, in order
  pub group_by_name : Assoc (List Text) → List Text → Assoc (List Text)
  group_by_name groups [] = groups
  group_by_name groups (root ∷ repositories) =
      group_by_name
        (put groups (name_of root) (or_else (get groups (name_of root)) [] ++ root ∷ []))
        repositories

  -- The inner loop over a group with several members
  pub name_members : Assoc Text → Text → List Text → Assoc Text
  name_members result name [] = result
  name_members result name (root ∷ group) =
      name_members (put result root (hashed name root)) name group

  abbrev pub name_group : Assoc Text → Text → List Text → Assoc Text
  name_group result name (root ∷ []) = put result root name
  name_group result name group = name_members result name group

  -- The second loop
  pub name_groups : Assoc Text → Assoc (List Text) → Assoc Text
  name_groups result [] = result
  name_groups result ((name, group) ∷ groups) = name_groups (name_group result name group) groups

  pub disambiguate_repository_basenames : List Text → Assoc Text
  disambiguate_repository_basenames repositories = name_groups [] (group_by_name [] repositories)
