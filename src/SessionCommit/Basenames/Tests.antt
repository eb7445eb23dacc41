-- ===== src/SessionCommit/Basenames/Tests.antt =====
-- Runs of `disambiguate_repository_basenames` of src/branch/session_commit.ts.
use patchlab.Common.{
  ◌≡◌, refl, Text, codes, text_eq, has, get, put, split, if◌then◌else◌, List, [], ◌∷◌, Option, none,
  some, true,
}
use patchlab.SessionCommit.Basenames.{
  group_by_name, name_members, name_groups, disambiguate_repository_basenames,
}

-- What stands behind the last slash.
abbrev last_part : List Text → Text
last_part [] = []
last_part (p ∷ []) = p
last_part (p ∷ q ∷ ps) = last_part (q ∷ ps)

basename : Text → Text
basename path = last_part (split b'/' path)

-- One path cannot be resolved.
realpath : Text → Option Text
realpath path = if text_eq path (codes "/gone/app") then none else some path

digest : Text → Text
digest path = if text_eq path (codes "/a/app") then codes "0123abcd" else codes "89abcdef"

abbrev repositories : List Text
repositories = codes "/a/app" ∷ codes "/lib" ∷ codes "/gone/app" ∷ codes "/" ∷ []

named_run :
    disambiguate_repository_basenames basename realpath digest repositories
    ≡ (codes "/a/app", codes "app_0123abcd")
      ∷ (codes "/gone/app", codes "app_89abcdef")
      ∷ (codes "/lib", codes "lib")
      ∷ (codes "/", codes "repository")
      ∷ []
unfolding disambiguate_repository_basenames group_by_name name_members name_groups basename realpath
    digest get put split text_eq
named_run = refl

lib_listed : has repositories (codes "/lib") ≡ true
unfolding has text_eq
lib_listed = refl
