-- ===== src/NodePath.antt =====
-- What src/manifest.ts and its neighbours ask of `node:path`, on a POSIX host.
mod Tests
use patchlab.Common.{
  Text, codes, text_eq, split, join, Bool, true, false, not, ◌&&◌, List, [], ◌∷◌, ◌++◌, ◌==◌,
  starts_with, if◌then◌else◌, map,
}
use patchlab.PathContainment.{slash, ends_with_slash}

unfoldable pub is_absolute : Text → Bool
is_absolute path = starts_with path (slash ∷ [])

reverse_onto : List Text → List Text → List Text
reverse_onto done [] = done
reverse_onto done (segment ∷ above) = reverse_onto (segment ∷ done) above

-- One `..` behind the segments `above`, the last of them first.
abbrev climb : Bool → List Text → List Text
climb allow_above_root [] = if allow_above_root then codes ".." ∷ [] else []
climb allow_above_root (segment ∷ above) =
    if text_eq segment (codes "..") then codes ".." ∷ segment ∷ above else above

abbrev step : Bool → List Text → Text → List Text
step allow_above_root above segment =
    if text_eq segment []
    then above
    else if text_eq segment (codes ".")
    then above
    else if text_eq segment (codes "..")
    then climb allow_above_root above
    else segment ∷ above

walk : Bool → List Text → List Text → List Text
walk allow_above_root above [] = above
walk allow_above_root above (segment ∷ segments) =
    walk allow_above_root (step allow_above_root above segment) segments

-- `normalizeString`: the segments without empty ones, `.`, and each `..` that something precedes
unfoldable pub normalized_segments : Bool → Text → List Text
unfolding reverse_onto walk
normalized_segments allow_above_root path =
    reverse_onto [] (walk allow_above_root [] (split slash path))

abbrev pub normalized : Bool → Bool → Text → Text
normalized true trailing [] = slash ∷ []
normalized true trailing (c ∷ cs) = slash ∷ c ∷ cs ++ (if trailing then slash ∷ [] else [])
normalized false true [] = codes "./"
normalized false false [] = codes "."
normalized false trailing (c ∷ cs) = c ∷ cs ++ (if trailing then slash ∷ [] else [])

unfoldable pub normalize : Text → Text
unfolding is_absolute
normalize [] = codes "."
normalize (c ∷ cs) =
    let path = c ∷ cs in
    let absolute = is_absolute path in
    normalized absolute (ends_with_slash path)
      (join (slash ∷ []) (normalized_segments (not absolute) path))

-- `path.join(a, b)`; empty arguments are skipped
unfoldable pub path_join : Text → Text → Text
path_join [] [] = codes "."
path_join [] (d ∷ ds) = normalize (d ∷ ds)
path_join (c ∷ cs) [] = normalize (c ∷ cs)
path_join (c ∷ cs) (d ∷ ds) = normalize (c ∷ cs ++ slash ∷ d ∷ ds)

-- The segments of `path.resolve(path)` below the root, where `cwd` is the working directory.
unfoldable pub resolved_segments : Text → Text → List Text
resolved_segments cwd path =
    normalized_segments false (if is_absolute path then path else cwd ++ slash ∷ path)

-- `..` for each segment that is left of `from`, and then what is left of `to`.
unfoldable pub from_common : List Text → List Text → List Text
from_common [] to = to
from_common (a ∷ from) [] = map (λ _. codes "..") (a ∷ from)
from_common (a ∷ from) (b ∷ to) =
    let rest = from_common from to in
    if text_eq a b then rest else map (λ _. codes "..") (a ∷ from) ++ b ∷ to

unfoldable pub relative : Text → Text → Text → Text
relative cwd from to =
    join (slash ∷ []) (from_common (resolved_segments cwd from) (resolved_segments cwd to))
