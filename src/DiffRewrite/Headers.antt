-- ===== src/DiffRewrite/Headers.antt =====
-- Single lines of src/diff_path_rewrite.ts: what becomes of the paths in header lines, and of a
-- content line that looks like one.
use mathlib.Core.List.{append_cancel_right, append_cancel_left}
use patchlab.Common.{
  ℕ, ◌≡◌, ◌≢◌, refl, ap, sym, ◌∙◌, Text, codes, starts_with, cut, cut_cons, inl, inr, Bool-cases,
  Assoc, get, List, [], ◌∷◌, ◌++◌, false, All, Option, none, some, arith,
}
use patchlab.DiffRewrite.{
  replace_segment, rewrite_first_segment, rewrite_diff_git_line, rewrite_header_line, git_prefix,
}

abbrev pub NoSlash : Text → Type 0
NoSlash = All (λ c. c ≢ b'/')

-- `frontend/p` under the prefix `packages/app` is `packages/app/p`, and `p` under the root.
abbrev pub renamed : Text → Text → Text
renamed [] p = p
renamed (c ∷ cs) p = (c ∷ cs) ++ b'/' ∷ p

-- The prefixes of the header lines that hold one path.
abbrev pub path_prefixes : List Text
path_prefixes = codes "--- a/" ∷ codes "+++ b/" ∷ codes "rename from " ∷ codes "rename to " ∷ []

cut_slash :
    (mount p : Text) → NoSlash mount → cut (codes "/") (mount ++ b'/' ∷ p) ≡ some (mount, b'/' ∷ p)
unfolding cut starts_with
cut_slash [] p h = refl
cut_slash (c ∷ cs) p (n, h) = ground (arith, cut_slash cs p h)

replace_lem :
    (path p prefix : Text) → replace_segment path (b'/' ∷ p) (some prefix) ≡ renamed prefix p
replace_lem path p [] = refl
replace_lem path p (c ∷ cs) = refl

segment_of_cut :
    (m : Assoc Text) (path head rest : Text)
    → cut (codes "/") path ≡ some (head, rest)
    → rewrite_first_segment path m ≡ replace_segment path rest (get m head)
unfolding rewrite_first_segment
segment_of_cut m path head rest h = rw (h, rewrite_first_segment)

-- A path below a mount is moved below the mount's prefix.
rewrite_first_segment_mount :
    (m : Assoc Text) (mount prefix p : Text)
    → NoSlash mount
    → get m mount ≡ some prefix
    → rewrite_first_segment (mount ++ b'/' ∷ p) m ≡ renamed prefix p
unfolding rewrite_first_segment
rewrite_first_segment_mount m mount prefix p n e =
    segment_of_cut m (mount ++ b'/' ∷ p) mount (b'/' ∷ p) (cut_slash mount p n)
    ∙ (ap (replace_segment (mount ++ b'/' ∷ p) (b'/' ∷ p)) e
        ∙ replace_lem (mount ++ b'/' ∷ p) p prefix)

path_header :
    (m : Assoc Text) (path : Text)
    → All
        (λ prefix. rewrite_header_line (prefix ++ path) m ≡ prefix ++ rewrite_first_segment path m)
        path_prefixes
unfolding rewrite_header_line starts_with
path_header m path = (refl, (refl, (refl, (refl, tt))))

-- In each of the four headers that hold one path, a path below a mount of the map, whose name holds
-- no slash, is moved below the prefix that the map gives for the mount.
pub rewrite_header_line-renamed :
    (m : Assoc Text) (mount prefix p : Text)
    → NoSlash mount
    → get m mount ≡ some prefix
    → All
        (λ header.
          rewrite_header_line (header ++ (mount ++ b'/' ∷ p)) m ≡ header ++ renamed prefix p)
        path_prefixes
rewrite_header_line-renamed m mount prefix p n e =
    let (a, (b, (c, (d, _)))) = path_header m (mount ++ b'/' ∷ p) in
    let moved = rewrite_first_segment_mount m mount prefix p n e in
    (
      a ∙ ap (λ (t : Text). codes "--- a/" ++ t) moved,
      (
        b ∙ ap (λ (t : Text). codes "+++ b/" ++ t) moved,
        (
          c ∙ ap (λ (t : Text). codes "rename from " ++ t) moved,
          (d ∙ ap (λ (t : Text). codes "rename to " ++ t) moved, tt),
        ),
      ),
    )

-- No separator begins inside `s`.
abbrev pub NoSeparator : Text → Type 0
NoSeparator s = cut (codes " b/") s ≡ none

cut_miss :
    (needle : Text) (c : ℕ) (cs : Text)
    → starts_with (c ∷ cs) needle ≡ false
    → cut needle (c ∷ cs) ≡ cut_cons c (cut needle cs)
unfolding cut
cut_miss needle c cs h = ground (arith, h)

none_of_cut_cons : (c : ℕ) (o : Option (Text × Text)) → cut_cons c o ≡ none → o ≡ none
none_of_cut_cons c none h = refl
none_of_cut_cons c (some p) h = cc

NoSeparator-parts :
    (c : ℕ) (cs : Text)
    → NoSeparator (c ∷ cs)
    → (starts_with (c ∷ cs) (codes " b/") ≡ false) × NoSeparator cs
NoSeparator-parts c cs h = elim (Bool-cases (starts_with (c ∷ cs) (codes " b/"))) [
  | inl e ↦ absurd (unfold cut in ground (arith, e, h))
  | inr e ↦ (e, none_of_cut_cons c _ (sym (cut_miss (codes " b/") c cs e) ∙ h))
]

-- The separator does not overlap itself.
starts_with_overlap :
    (c : ℕ) (cs post : Text)
    → starts_with (c ∷ cs) (codes " b/") ≡ false
    → starts_with (c ∷ cs ++ (codes " b/" ++ post)) (codes " b/") ≡ false
unfolding starts_with
starts_with_overlap c [] post h = ground arith
starts_with_overlap c (d ∷ []) post h = ground arith
starts_with_overlap c (d ∷ e ∷ cs) post h = h

cut_separator :
    (s post : Text)
    → NoSeparator s
    → cut (codes " b/") (s ++ (codes " b/" ++ post)) ≡ some (s, codes " b/" ++ post)
cut_separator [] post h = unfold cut starts_with in refl
cut_separator (c ∷ cs) post h =
    let (miss, later) = NoSeparator-parts c cs h in
    cut_miss (codes " b/") c (cs ++ (codes " b/" ++ post)) (starts_with_overlap c cs post miss)
    ∙ ap (cut_cons c) (cut_separator cs post later)

separator_behind : (x : Text) → NoSeparator x → NoSeparator (codes "a/" ++ x)
unfolding cut starts_with
separator_behind x h = rw h

git_line :
    (m : Assoc Text) (x y : Text)
    → NoSeparator x
    → rewrite_header_line (git_prefix ++ (codes "a/" ++ (x ++ (codes " b/" ++ y)))) m
      ≡ git_prefix
        ++ (codes "a/" ++ (rewrite_first_segment x m ++ (codes " b/" ++ rewrite_first_segment y m)))
unfolding rewrite_header_line rewrite_diff_git_line starts_with
git_line m x y h = rw (cut_separator (codes "a/" ++ x) y (separator_behind x h))

-- In a `diff --git` line, where no ` b/` stands inside the first path and the mounts hold no slash,
-- both paths are moved below the prefixes of their mounts.
pub rewrite_header_line-renamed_git :
    (m : Assoc Text) (mount mount' prefix prefix' p q : Text)
    → NoSlash mount
    → NoSlash mount'
    → get m mount ≡ some prefix
    → get m mount' ≡ some prefix'
    → NoSeparator (mount ++ b'/' ∷ p)
    → rewrite_header_line
        (git_prefix
          ++ (codes "a/" ++ ((mount ++ b'/' ∷ p) ++ (codes " b/" ++ (mount' ++ b'/' ∷ q)))))
        m
      ≡ git_prefix ++ (codes "a/" ++ (renamed prefix p ++ (codes " b/" ++ renamed prefix' q)))
rewrite_header_line-renamed_git m mount mount' prefix prefix' p q n n' e e' h =
    git_line m (mount ++ b'/' ∷ p) (mount' ++ b'/' ∷ q) h
    ∙ rw (
      rewrite_first_segment_mount m mount prefix p n e,
      rewrite_first_segment_mount m mount' prefix' q n' e',
    )

renamed-ne :
    (mount prefix p : Text) → mount ≢ prefix → prefix ≢ [] → renamed prefix p ≢ mount ++ b'/' ∷ p
renamed-ne mount [] p n k = absurd (k refl)
renamed-ne mount (c ∷ cs) p n k = λ e. n (sym (append_cancel_right (c ∷ cs) mount (b'/' ∷ p) e))

-- A removed line of a file stands in the diff behind a `-`. If its text begins with `-- a/`, a
-- mount without a slash that the map renames to another prefix than the root's, and a slash, the
-- rewriter takes it for a header: it changes the content of the patch.
pub rewrite_header_line_removed_line :
    (m : Assoc Text) (mount prefix p : Text)
    → NoSlash mount
    → get m mount ≡ some prefix
    → mount ≢ prefix
    → prefix ≢ []
    → rewrite_header_line (b'-' ∷ (codes "-- a/" ++ (mount ++ b'/' ∷ p))) m
      ≢ b'-' ∷ (codes "-- a/" ++ (mount ++ b'/' ∷ p))
rewrite_header_line_removed_line m mount prefix p n e other some_prefix same =
    renamed-ne mount prefix p other some_prefix (
      append_cancel_left (codes "--- a/") _ _
        (sym (rewrite_header_line-renamed m mount prefix p n e).0 ∙ same))
