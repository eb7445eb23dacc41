-- ===== src/DiffRewrite.antt =====
-- src/diff_path_rewrite.ts: the stream that renames mounts in the header lines of a unified diff.
-- A chunk is the list of its bytes, which `toString('binary')` takes for code units one to one. The
-- names in the map are code units of JavaScript, which may exceed a byte.
pub mod Stream
pub mod Headers
mod Tests
use patchlab.Common.{
  ℕ, Text, codes, text_eq, starts_with, split, cut, drop, length, Assoc, get, put, Bool, List, [],
  ◌∷◌, ◌++◌, ◌%◌, map, Option, none, some, allb, if◌then◌else◌, or_else,
}

pub record PathRewriteEntry : Type 0 where
  pub mount_name : Text
  pub source_prefix : Text

abbrev replace_segment : Text → Text → Option Text → Text
replace_segment path rest none = path
replace_segment path rest (some []) = drop 1 rest
replace_segment path rest (some (c ∷ cs)) = (c ∷ cs) ++ rest

pub rewrite_first_segment : Text → Assoc Text → Text
rewrite_first_segment path rewrite_map = elim (cut (codes "/") path) [
  | none ↦ or_else (get rewrite_map path) path
  | some (head, rest) ↦ replace_segment path rest (get rewrite_map head)
]

abbrev pub git_prefix : Text
git_prefix = codes "diff --git "

pub rewrite_diff_git_line : Text → Assoc Text → Text
rewrite_diff_git_line line rewrite_map =
    let rest = drop 11 line in
    if starts_with rest (codes "a/")
    then elim (cut (codes " b/") rest) [
      | none ↦ line
      | some (before, after) ↦
          git_prefix
          ++ (codes "a/"
              ++ (rewrite_first_segment (drop 2 before) rewrite_map
                  ++ (codes " b/" ++ rewrite_first_segment (drop 3 after) rewrite_map)))
    ]
    else line

-- `prefix + rewrite_first_segment(line.substring(prefix.length))`
abbrev behind : Text → Text → Assoc Text → Text
behind prefix line rewrite_map =
    prefix ++ rewrite_first_segment (drop (length prefix) line) rewrite_map

pub rewrite_header_line : Text → Assoc Text → Text
rewrite_header_line line rewrite_map =
    if starts_with line git_prefix
    then rewrite_diff_git_line line rewrite_map
    else if starts_with line (codes "--- a/")
    then behind (codes "--- a/") line rewrite_map
    else if starts_with line (codes "+++ b/")
    then behind (codes "+++ b/") line rewrite_map
    else if starts_with line (codes "rename from ")
    then behind (codes "rename from ") line rewrite_map
    else if starts_with line (codes "rename to ")
    then behind (codes "rename to ") line rewrite_map
    else line

-- `parts.pop() ?? ''`: the parts that stay, and the last one
abbrev keep_head : Text → List Text × Text → List Text × Text
keep_head p (parts, last) = (p ∷ parts, last)

pub pop : List Text → List Text × Text
pop [] = ([], [])
pop (p ∷ []) = ([], p)
pop (p ∷ q ∷ ps) = keep_head p (pop (q ∷ ps))

abbrev pub newline : ℕ
newline = 10

-- The `for` loop over the complete lines
pub emit : Assoc Text → List Text → Text
emit rewrite_map [] = []
emit rewrite_map (line ∷ parts) =
    rewrite_header_line line rewrite_map ++ newline ∷ emit rewrite_map parts

-- `Buffer.from(text, 'binary')`: the low byte of each code unit
abbrev pub binary : Text → Text
binary = map (λ c. c % 256)

-- One call of `transform`: what it passes on, and `line_carry` after it
pub transform : Assoc Text → Text → Text → Text × Text
transform rewrite_map line_carry chunk =
    let (parts, carry) = pop (split newline (line_carry ++ chunk)) in
    (binary (emit rewrite_map parts), carry)

pub flush : Assoc Text → Text → Text
flush rewrite_map [] = []
flush rewrite_map (c ∷ cs) = binary (rewrite_header_line (c ∷ cs) rewrite_map)

-- All that the stream passes on from `line_carry` and the chunks to come
pub run_stream : Assoc Text → Text → List Text → Text
run_stream rewrite_map line_carry [] = flush rewrite_map line_carry
run_stream rewrite_map line_carry (chunk ∷ chunks) =
    let (out, carry) = transform rewrite_map line_carry chunk in
    out ++ run_stream rewrite_map carry chunks

pub build_rewrite_map : Assoc Text → List PathRewriteEntry → Assoc Text
build_rewrite_map rewrite_map [] = rewrite_map
build_rewrite_map rewrite_map (entry ∷ rewrites) =
    build_rewrite_map (put rewrite_map entry.mount_name entry.source_prefix) rewrites

pub concat : List Text → Text
concat [] = []
concat (chunk ∷ chunks) = chunk ++ concat chunks

abbrev all_identity : List PathRewriteEntry → Bool
all_identity = allb (λ entry. text_eq entry.mount_name entry.source_prefix)

-- What the transform that `make_diff_path_rewriter` returns makes of a sequence of chunks
pub make_diff_path_rewriter : List PathRewriteEntry → List Text → Text
make_diff_path_rewriter rewrites chunks =
    if all_identity rewrites
    then concat chunks
    else run_stream (build_rewrite_map [] rewrites) [] chunks
