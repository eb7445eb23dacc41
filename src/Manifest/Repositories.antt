-- ===== src/Manifest/Repositories.antt =====
-- The repositories that src/manifest.ts finds among the sources.
use patchlab.Common.{
  ◌≡◌, ap, ◌∙◌, text_eq_iff, Text, text_eq, has, has-append, IsDistinct, IsDistinct-append, Bool,
  ◌||◌, List, [], ◌∷◌, ◌++◌, anyb, arith, Bool-cases, inl, inr,
}
use patchlab.Manifest.{SourceSpecification, collect_distinct, distinct_repositories_from_sources}

abbrev pub lies_in : Text → SourceSpecification → Bool
lies_in root source = text_eq source.repository_root root

has-collect_distinct :
    (ordered : List Text) (sources : List SourceSpecification) (root : Text)
    → has (collect_distinct ordered sources) root
      ≡ (has ordered root || anyb (lies_in root) sources)
unfolding collect_distinct has
has-collect_distinct ordered [] root = ground arith
has-collect_distinct ordered (s ∷ sources) root =
    elim (Bool-cases (has ordered s.repository_root)) [
      | inl e ↦ rw e (
          has-collect_distinct ordered sources root
          ∙ ground (
            arith,
            e,
            text_eq_iff s.repository_root root,
            λ (q : s.repository_root ≡ root). ap (has ordered) q,
          ))
      | inr e ↦ rw e (
          has-collect_distinct (ordered ++ s.repository_root ∷ []) sources root
          ∙ ground (arith, has-append ordered (s.repository_root ∷ []) root))
    ]

collect_distinct-IsDistinct :
    (ordered : List Text) (sources : List SourceSpecification)
    → IsDistinct ordered
    → IsDistinct (collect_distinct ordered sources)
unfolding collect_distinct
collect_distinct-IsDistinct ordered [] h = h
collect_distinct-IsDistinct ordered (s ∷ sources) h =
    elim (Bool-cases (has ordered s.repository_root)) [
      | inl e ↦ rw e (collect_distinct-IsDistinct ordered sources h)
      | inr e ↦ rw e (
          collect_distinct-IsDistinct (ordered ++ s.repository_root ∷ []) sources
            (IsDistinct-append ordered s.repository_root h e))
    ]

-- The repositories are the roots in which some source lies, and none is listed twice.
pub distinct_repositories_from_sources_lem :
    (sources : List SourceSpecification)
    → IsDistinct (distinct_repositories_from_sources sources)
      × ((root : Text)
          → has (distinct_repositories_from_sources sources) root ≡ anyb (lies_in root) sources)
unfolding distinct_repositories_from_sources has
distinct_repositories_from_sources_lem sources =
    (collect_distinct-IsDistinct [] sources tt, λ root. has-collect_distinct [] sources root)
