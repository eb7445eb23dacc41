-- ===== src/NodePath/Tests.antt =====
-- Runs of the functions of `node:path`.
use patchlab.Common.{◌≡◌, refl, codes, split, join, text_eq, starts_with}
use patchlab.PathContainment.{ends_with_slash}
use patchlab.NodePath.{
  is_absolute, reverse_onto, walk, normalized_segments, normalize, path_join, resolved_segments,
  from_common, relative,
}

join_run : path_join (codes "/repo/") (codes "a/./b/../c/") ≡ codes "/repo/a/c/"
unfolding path_join normalize normalized_segments reverse_onto walk split join text_eq starts_with
    is_absolute ends_with_slash
join_run = refl

join_above_run : path_join (codes "..") (codes "../x") ≡ codes "../../x"
unfolding path_join normalize normalized_segments reverse_onto walk split join text_eq starts_with
    is_absolute ends_with_slash
join_above_run = refl

relative_run : relative (codes "/w") (codes "/repo/a") (codes "/repo/b/c") ≡ codes "../b/c"
unfolding relative resolved_segments from_common normalized_segments reverse_onto walk split join
    text_eq starts_with is_absolute
relative_run = refl
