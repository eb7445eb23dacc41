-- ===== src/DiffRewrite/Tests.antt =====
-- Runs of the rewriter of src/diff_path_rewrite.ts, and the theorems at concrete inputs.
use patchlab.Common.{
  ◌≡◌, ◌≢◌, refl, Text, codes, starts_with, cut, split, text_eq, Assoc, get, put, List, [], ◌∷◌,
  ◌++◌, some, arith,
}
use patchlab.DiffRewrite.{
  PathRewriteEntry, rewrite_first_segment, rewrite_diff_git_line, rewrite_header_line, pop, emit,
  transform, flush, binary, run_stream, build_rewrite_map, concat, make_diff_path_rewriter,
}
use patchlab.DiffRewrite.Stream.{rewrite_text, run_stream-eq-rewrite_text}
use patchlab.DiffRewrite.Headers.{NoSlash, NoSeparator, rewrite_header_line_removed_line}

abbrev app : Text
app = codes "app"

abbrev packages_app : Text
packages_app = codes "packages/app"

abbrev renames : Assoc Text
renames = (app, packages_app) ∷ []

abbrev entries : List PathRewriteEntry
entries = record { mount_name = app; source_prefix = packages_app } ∷ []

-- A header that a chunk's end cuts in two.
abbrev cut_header : List Text
cut_header = codes "--- a/a" ∷ codes "pp/x\n+y\n" ∷ []

abbrev whole_header : List Text
whole_header = codes "--- a/app/x\n+y\n" ∷ []

rewritten_run : make_diff_path_rewriter entries cut_header ≡ codes "--- a/packages/app/x\n+y\n"
unfolding make_diff_path_rewriter build_rewrite_map run_stream transform emit flush pop split put
    get text_eq rewrite_header_line rewrite_diff_git_line rewrite_first_segment starts_with cut
rewritten_run = refl

-- A prefix outside of Latin-1 comes out as bytes that do not spell it.
truncated_run :
    flush ((app, 26085 ∷ []) ∷ []) (codes "--- a/app/x") ≡ codes "--- a/" ++ 229 ∷ codes "/x"
unfolding flush get text_eq rewrite_header_line rewrite_first_segment starts_with cut
truncated_run = refl

run_stream-eq-rewrite_text_example :
    run_stream renames [] cut_header ≡ binary (rewrite_text renames (concat cut_header))
run_stream-eq-rewrite_text_example = run_stream-eq-rewrite_text renames cut_header

same_text : concat cut_header ≡ concat whole_header
unfolding concat
same_text = refl

app_renamed : get renames app ≡ some packages_app
unfolding get text_eq
app_renamed = refl

app-NoSlash : NoSlash app
app-NoSlash = (omega arith, (omega arith, (omega arith, tt)))

no_separator : NoSeparator (codes "app/x")
unfolding cut starts_with
no_separator = refl

moved : app ≢ packages_app
moved h = ground (arith, h)

moved_below : packages_app ≢ []
moved_below h = ground (arith, h)

rewrite_header_line_removed_line_example :
    rewrite_header_line (codes "--- a/app/note") renames ≢ codes "--- a/app/note"
rewrite_header_line_removed_line_example =
    rewrite_header_line_removed_line renames app packages_app (codes "note") app-NoSlash app_renamed
      moved moved_below
