-- ===== src/SafeFilesystem/Atomic.antt =====
-- A write replaces the whole file or leaves it alone (src/safe_filesystem.ts).
use patchlab.Common.{
  ◌≡◌, refl, ap, ◌∙◌, ℕ, zero, suc, ◌+◌, Text, codes, text_eq, text_eq_iff, text_eq_refl, Bool,
  true, false, [], ◌∷◌, ◌++◌, length, length-append, Option, none, some, ok, err, Assoc, get, put,
  get-put, arith, if◌then◌else◌,
}
use patchlab.SafeFilesystem.{
  SystemError, WriteAnswer, written, write_failed, Host, Disk, remove, is_enoent, unlinked,
  safe_unlink, atomic_write_rename_attempts_limit, back_off, moved, renamed, is_retryable, Written,
  give_up, rename_from, after_write, temporary_path, atomic_write_file,
}

get-remove :
    (files : Assoc Text) (path k : Text)
    → get (remove files path) k ≡ (if text_eq path k then none else get files k)
unfolding get remove
get-remove [] path k = ground arith
get-remove ((name, contents) ∷ files) path k =
    ground (
      arith,
      get-remove files path k,
      text_eq_iff name path,
      text_eq_iff name k,
      text_eq_iff path k,
    )

-- Nothing but the temporary file changed.
abbrev pub Same : Text → Disk → Disk → Type 0
Same temporary before after =
    (k : Text) → text_eq temporary k ≡ false → get after.files k ≡ get before.files k

-- The file has the contents, and nothing but it and the temporary file changed.
abbrev pub Replaced : (temporary file_path contents : Text) → Disk → Disk → Type 0
Replaced temporary file_path contents before after =
    (k : Text)
    → text_eq temporary k ≡ false
    → get after.files k ≡ (if text_eq file_path k then some contents else get before.files k)

abbrev pub IsAtomic : (temporary file_path contents : Text) → Disk → Written → Type 0
IsAtomic temporary file_path contents before (ok done, after) =
    Replaced temporary file_path contents before after × (get after.files temporary ≡ none)
IsAtomic temporary file_path contents before (err message, after) = Same temporary before after

module _ (host : Host) (temporary file_path contents : Text) (before : Disk)
    (distinct : text_eq temporary file_path ≡ false) where
  safe_unlink-Same :
      (disk : Disk)
      → Same temporary before disk
      → Same temporary before (safe_unlink host temporary disk)
  unfolding safe_unlink
  safe_unlink-Same disk same k other = decide host.unlink
    where
      decide :
          (answer : Option SystemError)
          → get (unlinked temporary answer disk).files k ≡ get before.files k
      decide none =
          get-remove disk.files temporary k
          ∙ ap (λ t. if t then none else get disk.files k) other
          ∙ same k other
      decide (some error) =
          elim (is_enoent error.code)
            as (λ t.
              get
                (if t
                  then disk
                  else record disk { warnings = disk.warnings ++ error.message ∷ [] }).files
                k
              ≡ get before.files k) [ true ↦ same k other | false ↦ same k other ]

  renamed-IsAtomic :
      (disk : Disk)
      → Same temporary before disk
      → get disk.files temporary ≡ some contents
      → IsAtomic temporary file_path contents before (ok tt, renamed temporary file_path disk)
  renamed-IsAtomic disk same holds = (replaced, gone)
    where
      after : Assoc Text
      after = put (remove disk.files temporary) file_path contents

      moves : moved (get disk.files temporary) temporary file_path disk.files ≡ after
      moves = ap (λ found. moved found temporary file_path disk.files) holds

      read :
          (k : Text)
          → get (moved (get disk.files temporary) temporary file_path disk.files) k ≡ (
              if text_eq file_path k
              then some contents
              else if text_eq temporary k
              then none
              else get disk.files k)
      read k =
          ap (λ files. get files k) moves
          ∙ get-put (remove disk.files temporary) file_path k contents
          ∙ ap (λ t. if text_eq file_path k then some contents else t)
              (get-remove disk.files temporary k)

      replaced : Replaced temporary file_path contents before (renamed temporary file_path disk)
      replaced k other =
          read k
          ∙ ap
              (λ t.
                if text_eq file_path k then some contents else if t then none else get disk.files k)
              other
          ∙ ap (λ t. if text_eq file_path k then some contents else t) (same k other)

      gone : get (renamed temporary file_path disk).files temporary ≡ none
      gone =
          read temporary
          ∙ ground (
            arith,
            text_eq_iff temporary file_path,
            text_eq_iff file_path temporary,
            text_eq_refl temporary,
            distinct,
          )

  back_off-Same : (attempt : ℕ) (disk : Disk) → (back_off attempt disk).files ≡ disk.files
  back_off-Same zero disk = refl
  back_off-Same (suc n) disk = refl

  rename_from-IsAtomic :
      (remaining attempt : ℕ) (last_error : Text) (disk : Disk)
      → Same temporary before disk
      → get disk.files temporary ≡ some contents
      → IsAtomic temporary file_path contents before
          (rename_from host temporary file_path remaining attempt last_error disk)
  unfolding rename_from
  rename_from-IsAtomic zero attempt last_error disk same holds = safe_unlink-Same disk same
  rename_from-IsAtomic (suc remaining) attempt last_error disk same holds =
      decide (host.rename attempt) (λ message.
        rename_from-IsAtomic remaining (suc attempt) message (back_off attempt disk) waited_same
          waited_holds)
    where
      waited_same : Same temporary before (back_off attempt disk)
      waited_same k other = ap (λ files. get files k) (back_off-Same attempt disk) ∙ same k other

      waited_holds : get (back_off attempt disk).files temporary ≡ some contents
      waited_holds = ap (λ files. get files temporary) (back_off-Same attempt disk) ∙ holds

      decide :
          (answer : Option SystemError)
          → ((message : Text)
              → IsAtomic temporary file_path contents before (
                  rename_from host temporary file_path remaining
                    (suc attempt)
                    message
                    (back_off attempt disk)))
          → IsAtomic temporary file_path contents before (elim answer [
            | none ↦ (ok tt, renamed temporary file_path (back_off attempt disk))
            | some error ↦ elim (is_retryable error.code) [
              | true ↦
                  rename_from host temporary file_path remaining
                    (suc attempt)
                    error.message
                    (back_off attempt disk)
              | false ↦ give_up host temporary file_path error.message (back_off attempt disk)
            ]
          ])
      decide none later = renamed-IsAtomic (back_off attempt disk) waited_same waited_holds
      decide (some error) later =
          elim (is_retryable error.code)
            as (λ t. IsAtomic temporary file_path contents before (elim t [
              | true ↦
                  rename_from host temporary file_path remaining (suc attempt) error.message
                    (back_off attempt disk)
              | false ↦ give_up host temporary file_path error.message (back_off attempt disk)
            ])) [
              | true ↦ later error.message
              | false ↦ safe_unlink-Same (back_off attempt disk) waited_same
            ]

  put-Same :
      (stored : Text)
      → Same temporary before (record before { files = put before.files temporary stored })
  put-Same stored k other =
      get-put before.files temporary k stored
      ∙ ap (λ t. if t then some stored else get before.files k) other

  after_write-IsAtomic :
      (answer : WriteAnswer)
      → IsAtomic temporary file_path contents before
          (after_write host temporary file_path contents answer before)
  after_write-IsAtomic (write_failed none error) = safe_unlink-Same before (λ k other. refl)
  after_write-IsAtomic (write_failed (some partial) error) =
      safe_unlink-Same (record before { files = put before.files temporary partial })
        (put-Same partial)
  after_write-IsAtomic written =
      rename_from-IsAtomic atomic_write_rename_attempts_limit 0 []
        (record before { files = put before.files temporary contents }) (put-Same contents)
        (get-put before.files temporary temporary contents
          ∙ ap (λ t. if t then some contents else get before.files temporary)
              (text_eq_refl temporary))

-- The temporary name is longer than the file's.
temporary_path-distinct :
    (file_path pid tag : Text) → text_eq (temporary_path file_path pid tag) file_path ≡ false
unfolding temporary_path
temporary_path-distinct file_path pid tag = decide (text_eq temporary file_path) refl
  where
    temporary : Text
    temporary = file_path ++ (codes ".tmp." ++ (pid ++ (codes "." ++ tag)))

    rest : Text
    rest = codes "tmp." ++ (pid ++ (codes "." ++ tag))

    longer : length temporary ≡ length file_path + suc (length rest)
    longer = length-append file_path (codes ".tmp." ++ (pid ++ (codes "." ++ tag)))

    decide : (same : Bool) → text_eq temporary file_path ≡ same → same ≡ false
    decide false h = refl
    decide true h =
        let e = ap length ((text_eq_iff temporary file_path).0 h) in
        absurd (omega (arith, longer, e))

-- Whatever fails, and whatever the system answers: where `atomic_write_file` returns, the file has
-- exactly the contents and the temporary file is gone; where it throws, the file is as it was. In both
-- cases no other file changed, except that the temporary one may be left behind by a throw.
pub atomic_write_file-IsAtomic :
    (host : Host) (pid tag file_path contents : Text) (disk : Disk)
    → IsAtomic
        (temporary_path file_path pid tag)
        file_path
        contents
        disk
        (atomic_write_file host pid tag file_path contents disk)
unfolding atomic_write_file
atomic_write_file-IsAtomic host pid tag file_path contents disk =
    after_write-IsAtomic host (temporary_path file_path pid tag) file_path contents disk
      (temporary_path-distinct file_path pid tag) host.write
