-- ===== src/Manifest/Roots.antt =====
-- src/manifest.ts: the repositories that `destroy --force` salvages from a corrupt manifest.
use patchlab.Common.{Text, codes, List, [], ◌∷◌, ◌++◌, map, Option, some, has, if◌then◌else◌}
use patchlab.Json.{Json, string, object, get_member}
use patchlab.Manifest.{SourceSpecification, distinct_repositories_from_sources}
use patchlab.Manifest.Sources.{listed}

-- A string that is not empty
abbrev pub nonempty_text : Option Json → List Text
nonempty_text (some (string (c ∷ cs))) = (c ∷ cs) ∷ []
nonempty_text _ = []

-- The root of an entry that is an object and has one
abbrev pub entry_root : Json → List Text
entry_root (object members) = nonempty_text (get_member members (codes "repository_root"))
entry_root _ = []

-- The calls of `roots.add` for the entries, in their order
unfoldable pub entry_roots : List Json → List Text
entry_roots [] = []
entry_roots (entry ∷ rest) = entry_root entry ++ entry_roots rest

-- `roots.add(root)` for each of the roots
unfoldable pub add_roots : List Text → List Text → List Text
add_roots roots [] = roots
add_roots roots (root ∷ rest) =
    add_roots (if has roots root then roots else roots ++ root ∷ []) rest

abbrev pub source_of_root : Text → SourceSpecification
source_of_root root = record {
  host_path = root;
  repository_root = root;
  source_prefix = [];
  mount_name = [];
}

-- none is a file whose text is no JSON.
unfoldable pub try_read_manifest_repository_roots : Option Json → List Text
unfolding entry_roots add_roots
try_read_manifest_repository_roots (some (object raw)) = distinct_repositories_from_sources (
    map source_of_root (
      add_roots [] (
        entry_roots (listed (get_member raw (codes "sources")))
        ++ nonempty_text (get_member raw (codes "repository_root")))))
try_read_manifest_repository_roots _ = []
