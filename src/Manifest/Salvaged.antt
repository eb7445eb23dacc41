-- ===== src/Manifest/Salvaged.antt =====
-- src/manifest.ts: the roots that `destroy --force` salvages, against those of a manifest that is read.
use patchlab.Common.{
  ◌≡◌, ◌≢◌, refl, sym, ap, ◌∙◌, ℕ, ◌+◌, Text, text_eq, text_eq_iff, text_eq_refl, has, has-append,
  codes, Bool, true, false, ◌||◌, List, [], ◌∷◌, ◌++◌, map, anyb, Option, none, some, ok, err,
  >>=-eq-ok, Ensured, Ensured-ok, arith, Bool-cases, inl, inr, if◌then◌else◌, or_else,
}
use patchlab.Json.{Json, null, boolean, number, string, array, object, Members, get_member}
use patchlab.JsonValidators.{assert_parsed_object_root}
use patchlab.Manifest.{
  SourceSpecification, SandboxManifest, manifest_repositories, no_source_fields,
}
use patchlab.Manifest.Repositories.{lies_in, distinct_repositories_from_sources_lem}
use patchlab.Manifest.Sources.{
  text_of, string_fields, candidate_fields, assert_host_path_join_invariant,
  validate_source_specification, validate_entries, check_source_path, cast_string,
  cast_string_or_null, null_if_absent, synthesize_legacy_source, legacy_sources, no_legacy_fields,
  sources_from_legacy, listed, sources_from, resolve_sources_from_raw,
}
use patchlab.Manifest.Read.{read_manifest}
use patchlab.Manifest.Roots.{
  nonempty_text, entry_root, entry_roots, add_roots, source_of_root,
  try_read_manifest_repository_roots,
}
use patchlab.Manifest.Sound.{read_fields-sources}

has-add_roots :
    (roots rest : List Text) (k : Text) → has (add_roots roots rest) k ≡ (has roots k || has rest k)
unfolding add_roots has
has-add_roots roots [] k = ground arith
has-add_roots roots (root ∷ rest) k = elim (Bool-cases (has roots root)) [
  | inl e ↦ rw e (
      has-add_roots roots rest k
      ∙ ground (arith, e, text_eq_iff root k, λ (q : root ≡ k). ap (has roots) q))
  | inr e ↦
      rw e
        (has-add_roots (roots ++ root ∷ []) rest k ∙ ground (arith, has-append roots (root ∷ []) k))
]

anyb-lies_in-source_of_root :
    (roots : List Text) (k : Text) → anyb (lies_in k) (map source_of_root roots) ≡ has roots k
unfolding has
anyb-lies_in-source_of_root [] k = refl
anyb-lies_in-source_of_root (root ∷ roots) k = ground (arith, anyb-lies_in-source_of_root roots k)

-- The salvaged roots of an object
has-try_read :
    (raw : Members) (k : Text)
    → has (try_read_manifest_repository_roots (some (object raw))) k ≡ (
        has (entry_roots (listed (get_member raw (codes "sources")))) k
        || has (nonempty_text (get_member raw (codes "repository_root"))) k)
unfolding try_read_manifest_repository_roots has
has-try_read raw k =
    let found =
      entry_roots (listed (get_member raw (codes "sources")))
      ++ nonempty_text (get_member raw (codes "repository_root")) in
    (distinct_repositories_from_sources_lem (map source_of_root (add_roots [] found))).1 k
    ∙ anyb-lies_in-source_of_root (add_roots [] found) k
    ∙ has-add_roots [] found k
    ∙ has-append (entry_roots (listed (get_member raw (codes "sources"))))
        (nonempty_text (get_member raw (codes "repository_root"))) k

-- A root that is not empty is found again in the value that it was read from.
has-nonempty_text :
    (o : Option Json) (root : Text)
    → o ≡ some (string root)
    → root ≢ []
    → has (nonempty_text o) root ≡ true
unfolding has
has-nonempty_text o [] e known = absurd (known refl)
has-nonempty_text o (c ∷ cs) e known = rw e (rw (text_eq_refl (c ∷ cs)) refl)

text_of-eq-some : (o : Option Json) (t : Text) → text_of o ≡ some t → o ≡ some (string t)
text_of-eq-some none t e = cc
text_of-eq-some (some null) t e = cc
text_of-eq-some (some (boolean _)) t e = cc
text_of-eq-some (some (number _)) t e = cc
text_of-eq-some (some (string s)) t e =
    ap (λ (o : Option Text). elim o [ none ↦ none | some s ↦ some (string s) ]) e
text_of-eq-some (some (array _)) t e = cc
text_of-eq-some (some (object _)) t e = cc

string_fields-root :
    (index : ℕ) (a b c d : Option Text)
    → Ensured (λ s. b ≡ some s.repository_root) (string_fields index a b c d)
string_fields-root index none b c d = tt
string_fields-root index (some a) none c d = tt
string_fields-root index (some a) (some b) none d = tt
string_fields-root index (some a) (some b) (some c) none = tt
string_fields-root index (some a) (some b) (some c) (some d) = refl

-- What an entry's root is found by
Found : Json → SourceSpecification → Type 0
Found entry s = s.repository_root ≢ [] → has (entry_root entry) s.repository_root ≡ true

candidate_fields-Found :
    (index : ℕ) (entry : Json) (s : SourceSpecification)
    → candidate_fields index entry ≡ ok s
    → Found entry s
unfolding candidate_fields Found
candidate_fields-Found index (object members) s h known =
    let root = get_member members (codes "repository_root") in
    let e =
      Ensured-ok (λ (s : SourceSpecification). text_of root ≡ some s.repository_root) _
        (string_fields-root index (text_of (get_member members (codes "host_path"))) (text_of root)
          (text_of (get_member members (codes "source_prefix")))
          (text_of (get_member members (codes "mount_name"))))
        h in
    has-nonempty_text root s.repository_root (text_of-eq-some root s.repository_root e) known
candidate_fields-Found index (array _) s h known = cc
candidate_fields-Found index null s h known = cc
candidate_fields-Found index (boolean _) s h known = cc
candidate_fields-Found index (number _) s h known = cc
candidate_fields-Found index (string _) s h known = cc

validate_source-Found :
    (ci : Bool) (entry : Json) (index : ℕ) (s : SourceSpecification)
    → validate_source_specification ci entry index ≡ ok s
    → Found entry s
unfolding validate_source_specification
validate_source-Found ci entry index s h =
    let (candidate, e, f) = >>=-eq-ok (candidate_fields index entry) _ h in
    let (_, _, g) = >>=-eq-ok (assert_host_path_join_invariant ci (some index) candidate) _ f in
    candidate_fields-Found index entry s (e ∙ g)

validate_entries_found :
    (ci : Bool) (index : ℕ) (values : List Json) (sources : List SourceSpecification) (k : Text)
    → validate_entries ci index values ≡ ok sources
    → k ≢ []
    → anyb (lies_in k) sources ≡ true
    → has (entry_roots values) k ≡ true
unfolding validate_entries entry_roots Found
validate_entries_found ci index [] [] k h known lies = cc
validate_entries_found ci index [] (s ∷ sources) k h known lies = cc
validate_entries_found ci index (entry ∷ values) sources k h known lies =
    let (s, e, f) = >>=-eq-ok (validate_source_specification ci entry index) _ h in
    let (rest, g, i) = >>=-eq-ok (validate_entries ci (index + 1) values) _ f in
    let split : anyb (lies_in k) (s ∷ rest) ≡ true = ground (arith, i, lies) in
    elim (Bool-cases (text_eq s.repository_root k)) [
      | inl q ↦
          let same = (text_eq_iff s.repository_root k).0 q in
          let here = validate_source-Found ci entry index s e (λ r. known (sym same ∙ r)) in
          has-append (entry_root entry) (entry_roots values) k
          ∙ ground (arith, here, ap (has (entry_root entry)) same)
      | inr q ↦
          let later =
            validate_entries_found ci (index + 1) values rest k g known
              (ground (arith, q, split)) in
          has-append (entry_root entry) (entry_roots values) k ∙ ground (arith, later)
    ]

synthesize_legacy_source-root :
    (cwd : Text) (path root : Option Text) (prefix : Text) (s : SourceSpecification)
    → synthesize_legacy_source cwd path root prefix ≡ ok s
    → s.repository_root ≢ []
    → root ≡ some s.repository_root
unfolding synthesize_legacy_source
synthesize_legacy_source-root cwd none none prefix s h known = cc
synthesize_legacy_source-root cwd (some path) none prefix s h known =
    absurd (known (ground (arith, h)))
synthesize_legacy_source-root cwd path (some root) prefix s h known =
    let (_, _, e) = >>=-eq-ok (check_source_path cwd path root) _ h in ground (arith, e)

cast_string_or_null-eq-some :
    (field : Text) (o : Option Json) (v : Option (Option Text)) (root : Text)
    → cast_string_or_null field o ≡ ok v
    → null_if_absent v ≡ some root
    → o ≡ some (string root)
cast_string_or_null-eq-some field none v root h e =
    let q : none ≡ v = ground arith in let bad = ap null_if_absent q ∙ e in cc
cast_string_or_null-eq-some field (some null) v root h e =
    let q : some none ≡ v = ground arith in let bad = ap null_if_absent q ∙ e in cc
cast_string_or_null-eq-some field (some (string t)) v root h e =
    let q : some (some t) ≡ v = ground arith in
    let same : some t ≡ some root = ap null_if_absent q ∙ e in ground (arith, same)
cast_string_or_null-eq-some field (some (boolean _)) v root h e = cc
cast_string_or_null-eq-some field (some (number _)) v root h e = cc
cast_string_or_null-eq-some field (some (array _)) v root h e = cc
cast_string_or_null-eq-some field (some (object _)) v root h e = cc

legacy_sources_found :
    (cwd : Text) (raw : Members) (sources : List SourceSpecification) (k : Text)
    → legacy_sources cwd raw ≡ ok sources
    → k ≢ []
    → anyb (lies_in k) sources ≡ true
    → has (nonempty_text (get_member raw (codes "repository_root"))) k ≡ true
unfolding legacy_sources
legacy_sources_found cwd raw sources k h known lies =
    let (path, _, h1) =
      >>=-eq-ok (cast_string (codes "source_path") (get_member raw (codes "source_path"))) _ h in
    let (root, cast, h2) =
      >>=-eq-ok
        (cast_string_or_null (codes "repository_root") (get_member raw (codes "repository_root"))) _
        h1 in
    let (prefix, _, h3) =
      >>=-eq-ok
        (cast_string_or_null (codes "source_prefix") (get_member raw (codes "source_prefix"))) _
        h2 in
    let (s, made, h4) =
      >>=-eq-ok
        (synthesize_legacy_source cwd path (null_if_absent root)
          (or_else (null_if_absent prefix) []))
        _ h3 in
    let single : anyb (lies_in k) (s ∷ []) ≡ true = ground (arith, h4, lies) in
    let same : s.repository_root ≡ k =
      (text_eq_iff s.repository_root k).0 (ground (arith, single)) in
    let recorded =
      synthesize_legacy_source-root cwd path (null_if_absent root) _ s made
        (λ r. known (sym same ∙ r)) in
    has-nonempty_text (get_member raw (codes "repository_root")) k
      (cast_string_or_null-eq-some (codes "repository_root") _ root k cast
        (recorded ∙ ap some same))
      known

sources_from_found :
    (ci : Bool) (cwd : Text) (raw : Members) (values : List Json)
    (sources : List SourceSpecification) (k : Text)
    → sources_from ci cwd raw values ≡ ok sources
    → k ≢ []
    → anyb (lies_in k) sources ≡ true
    → (has (entry_roots values) k
        || has (nonempty_text (get_member raw (codes "repository_root"))) k)
      ≡ true
unfolding sources_from sources_from_legacy
sources_from_found ci cwd raw [] sources k h known lies =
    decide
      (no_legacy_fields (get_member raw (codes "source_path"))
        (get_member raw (codes "repository_root")) (get_member raw (codes "source_prefix")))
      h
  where
    decide :
        (t : Bool)
        → (if t then err no_source_fields else legacy_sources cwd raw) ≡ ok sources
        → (has (entry_roots []) k
            || has (nonempty_text (get_member raw (codes "repository_root"))) k)
          ≡ true
    decide true h = cc
    decide false h = let found = legacy_sources_found cwd raw sources k h known lies in ground arith
sources_from_found ci cwd raw (entry ∷ values) sources k h known lies =
    let found = validate_entries_found ci 0 (entry ∷ values) sources k h known lies in ground arith

-- Of a manifest that `read_manifest` accepts, `try_read_manifest_repository_roots` finds in the same
-- file every repository that is recorded, so that a forced destroy misses no branch of a valid one.
pub try_read_manifest_repository_roots_complete :
    (case_insensitive : Bool) (cwd : Text) (parsed : Json) (m : SandboxManifest) (root : Text)
    → read_manifest case_insensitive cwd parsed ≡ ok m
    → root ≢ []
    → has (manifest_repositories m) root ≡ true
    → has (try_read_manifest_repository_roots (some parsed)) root ≡ true
unfolding read_manifest assert_parsed_object_root manifest_repositories resolve_sources_from_raw
try_read_manifest_repository_roots_complete ci cwd (object raw) m root h known listed_root =
    let (_, sources) = read_fields-sources ci cwd raw m h in
    let lies = sym ((distinct_repositories_from_sources_lem m.sources).1 root) ∙ listed_root in
    has-try_read raw root
    ∙ sources_from_found ci cwd raw (listed (get_member raw (codes "sources"))) m.sources root
        sources known lies
try_read_manifest_repository_roots_complete ci cwd null m root h known listed_root = cc
try_read_manifest_repository_roots_complete ci cwd (boolean _) m root h known listed_root = cc
try_read_manifest_repository_roots_complete ci cwd (number _) m root h known listed_root = cc
try_read_manifest_repository_roots_complete ci cwd (string _) m root h known listed_root = cc
try_read_manifest_repository_roots_complete ci cwd (array _) m root h known listed_root = cc
