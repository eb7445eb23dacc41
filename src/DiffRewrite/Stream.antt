-- ===== src/DiffRewrite/Stream.antt =====
-- The stream of src/diff_path_rewrite.ts works line by line, however its input is cut into chunks.
use patchlab.Common.{
  ℕ, ◌≡◌, ◌≢◌, refl, ap, sym, ◌∙◌, Text, split, join, starts_with, cons_head, Assoc, List, [], ◌∷◌,
  ◌++◌, map, ◌%◌, append_assoc, append-nil, true, false, ◌==◌, All, Bool-cases, arith, inl, inr,
}
use mathlib.Core.List.{map-append}
use patchlab.DiffRewrite.{
  PathRewriteEntry, rewrite_header_line, keep_head, pop, newline, emit, binary, transform, flush,
  run_stream, build_rewrite_map, concat, make_diff_path_rewriter,
}

-- The text with each of its lines rewritten.
pub rewrite_text : Assoc Text → Text → Text
rewrite_text m text =
    join (newline ∷ []) (map (λ line. rewrite_header_line line m) (split newline text))

abbrev NoNewline : Text → Type 0
NoNewline = All (λ c. c ≢ newline)

split_cons_newline :
    (c : ℕ) (cs : Text) → (c == newline) ≡ true → split newline (c ∷ cs) ≡ [] ∷ split newline cs
unfolding split
split_cons_newline c cs e = ground (arith, e)

split_cons_other :
    (c : ℕ) (cs : Text)
    → (c == newline) ≡ false
    → split newline (c ∷ cs) ≡ cons_head c (split newline cs)
unfolding split
split_cons_other c cs e = ground (arith, e)

cons_head-ne-nil : (c : ℕ) (ps : List Text) → cons_head c ps ≢ []
cons_head-ne-nil c [] = cc
cons_head-ne-nil c (p ∷ ps) = cc

split-ne-nil : (s : Text) → split newline s ≢ []
split-ne-nil [] = unfold split in cc
split-ne-nil (c ∷ cs) = elim (Bool-cases (c == newline)) [
  | inl e ↦ rw (split_cons_newline c cs e) (cc)
  | inr e ↦ rw (split_cons_other c cs e) (cons_head-ne-nil c (split newline cs))
]

split_of_NoNewline : (s : Text) → NoNewline s → split newline s ≡ s ∷ []
unfolding split
split_of_NoNewline [] h = refl
split_of_NoNewline (c ∷ cs) h = ground (arith, split_of_NoNewline cs)

pop_cons : (p : Text) (ps : List Text) → ps ≢ [] → pop (p ∷ ps) ≡ keep_head p (pop ps)
unfolding pop
pop_cons p [] h = absurd (h refl)
pop_cons p (q ∷ ps) h = refl

last_of_cons_head :
    (c : ℕ) (ps : List Text)
    → c ≢ newline
    → NoNewline (pop ps).1
    → NoNewline (pop (cons_head c ps)).1
unfolding pop
last_of_cons_head c [] n h = (n, tt)
last_of_cons_head c (p ∷ []) n h = (n, h)
last_of_cons_head c (p ∷ q ∷ ps) n h = h

pop-NoNewline : (s : Text) → NoNewline (pop (split newline s)).1
pop-NoNewline [] = unfold split pop in tt
pop-NoNewline (c ∷ cs) = elim (Bool-cases (c == newline)) [
  | inl e ↦
      rw (split_cons_newline c cs e, pop_cons [] (split newline cs) (split-ne-nil cs))
        (pop-NoNewline cs)
  | inr e ↦
      rw (split_cons_other c cs e)
        (last_of_cons_head c (split newline cs) (ground (arith, e)) (pop-NoNewline cs))
]

append_cons_head :
    (c : ℕ) (e : (c == newline) ≡ false) (ps : List Text) (t : Text)
    → ps ≢ []
    → cons_head c ((pop ps).0 ++ split newline ((pop ps).1 ++ t))
      ≡ (pop (cons_head c ps)).0 ++ split newline ((pop (cons_head c ps)).1 ++ t)
unfolding pop
append_cons_head c e [] t h = absurd (h refl)
append_cons_head c e (p ∷ []) t h = sym (split_cons_other c (p ++ t) e)
append_cons_head c e (p ∷ q ∷ ps) t h = refl

-- A text is split by splitting its first part, and going on from the last piece.
split_append :
    (s t : Text)
    → split newline (s ++ t)
      ≡ (pop (split newline s)).0 ++ split newline ((pop (split newline s)).1 ++ t)
split_append [] t = unfold split pop in refl
split_append (c ∷ cs) t = elim (Bool-cases (c == newline)) [
  | inl e ↦
      rw
        (
          split_cons_newline c cs e,
          split_cons_newline c (cs ++ t) e,
          pop_cons [] (split newline cs) (split-ne-nil cs),
        )
        (ap (λ (ps : List Text). [] ∷ ps) (split_append cs t))
  | inr e ↦
      rw (split_cons_other c cs e, split_cons_other c (cs ++ t) e)
        (ap (cons_head c) (split_append cs t)
          ∙ append_cons_head c e (split newline cs) t (split-ne-nil cs))
]

-- `rewrite_text` on the pieces of a text
abbrev rewrite_lines : Assoc Text → List Text → Text
rewrite_lines m lines = join (newline ∷ []) (map (λ line. rewrite_header_line line m) lines)

rewrite_lines_append :
    (m : Assoc Text) (parts lines : List Text)
    → lines ≢ []
    → rewrite_lines m (parts ++ lines) ≡ emit m parts ++ rewrite_lines m lines
unfolding emit join
rewrite_lines_append m [] lines h = refl
rewrite_lines_append m (p ∷ []) [] h = absurd (h refl)
rewrite_lines_append m (p ∷ []) (l ∷ ls) h =
    sym (append_assoc (rewrite_header_line p m) (newline ∷ []) (rewrite_lines m (l ∷ ls)))
rewrite_lines_append m (p ∷ q ∷ ps) lines h =
    ap (λ (t : Text). rewrite_header_line p m ++ newline ∷ t)
      (rewrite_lines_append m (q ∷ ps) lines h)
    ∙ sym
        (append_assoc (rewrite_header_line p m) (newline ∷ emit m (q ∷ ps)) (rewrite_lines m lines))

rewrite_header_line-nil : (m : Assoc Text) → rewrite_header_line [] m ≡ []
unfolding rewrite_header_line starts_with
rewrite_header_line-nil m = refl

flush_lem :
    (m : Assoc Text) (carry : Text)
    → NoNewline carry
    → flush m carry ≡ binary (rewrite_text m carry)
unfolding flush rewrite_text join
flush_lem m [] h = rw (split_of_NoNewline [] tt) (ap binary (sym (rewrite_header_line-nil m)))
flush_lem m (c ∷ cs) h = rw (split_of_NoNewline (c ∷ cs) h) refl

binary-append : (s t : Text) → binary (s ++ t) ≡ binary s ++ binary t
binary-append s t = map-append (λ c. c % 256) s t

rewrite_text_append :
    (m : Assoc Text) (s t : Text)
    → rewrite_text m (s ++ t)
      ≡ emit m (pop (split newline s)).0 ++ rewrite_text m ((pop (split newline s)).1 ++ t)
unfolding rewrite_text
rewrite_text_append m s t =
    ap (rewrite_lines m) (split_append s t)
    ∙ rewrite_lines_append m (pop (split newline s)).0 _ (split-ne-nil _)

run_stream_lem :
    (m : Assoc Text) (carry : Text) (chunks : List Text)
    → NoNewline carry
    → run_stream m carry chunks ≡ binary (rewrite_text m (carry ++ concat chunks))
unfolding run_stream transform concat
run_stream_lem m carry [] h = rw append-nil (flush_lem m carry h)
run_stream_lem m carry (chunk ∷ chunks) h =
    let (parts, carry') = pop (split newline (carry ++ chunk)) in
    ap (λ (t : Text). binary (emit m parts) ++ t)
      (run_stream_lem m carry' chunks (pop-NoNewline (carry ++ chunk)))
    ∙ sym (binary-append (emit m parts) (rewrite_text m (carry' ++ concat chunks)))
    ∙ ap binary (sym (rewrite_text_append m (carry ++ chunk) (concat chunks)))
    ∙ ap (λ t. binary (rewrite_text m t)) (append_assoc carry chunk (concat chunks))

-- Whatever its map, the stream passes on the text of all chunks with each line rewritten, as the low
-- bytes of its code units, however that text is cut into chunks.
pub run_stream-eq-rewrite_text :
    (m : Assoc Text) (chunks : List Text)
    → run_stream m [] chunks ≡ binary (rewrite_text m (concat chunks))
run_stream-eq-rewrite_text m chunks = run_stream_lem m [] chunks tt

-- The same bytes in other chunks give the same output, in the pass-through case too.
pub make_diff_path_rewriter_chunks :
    (rewrites : List PathRewriteEntry) (chunks chunks' : List Text)
    → concat chunks ≡ concat chunks'
    → make_diff_path_rewriter rewrites chunks ≡ make_diff_path_rewriter rewrites chunks'
unfolding make_diff_path_rewriter
make_diff_path_rewriter_chunks rewrites chunks chunks' h = ground (
  arith,
  run_stream-eq-rewrite_text (build_rewrite_map [] rewrites) chunks,
  run_stream-eq-rewrite_text (build_rewrite_map [] rewrites) chunks',
  ap (λ t. binary (rewrite_text (build_rewrite_map [] rewrites) t)) h,
)
