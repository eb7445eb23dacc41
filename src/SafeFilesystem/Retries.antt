-- ===== src/SafeFilesystem/Retries.antt =====
-- The attempts of the renaming (src/safe_filesystem.ts).
use patchlab.Common.{
  ◌≡◌, refl, sym, ap, ◌∙◌, ℕ, zero, suc, ◌<◌, ◌^◌, put, append_assoc, append-nil, Text, true, false,
  List, [], ◌∷◌, ◌++◌, none, some, ok, arith,
}
use mathlib.Core.Path.{subst}
use patchlab.SafeFilesystem.{
  SystemError, written, Host, Disk, is_retryable, back_off, Written, give_up, rename_from,
  after_write, atomic_write_rename_attempts_limit, temporary_path, atomic_write_file, renamed,
}

-- The renaming succeeds after that many attempts more, and each before it fails by a lock.
abbrev pub ClearsAfter : Host → (locked attempt : ℕ) → Type 0
ClearsAfter host zero attempt = host.rename attempt ≡ none
ClearsAfter host (suc locked) attempt =
    ((error : SystemError) × (host.rename attempt ≡ some error) × (is_retryable error.code ≡ true))
    × ClearsAfter host locked (suc attempt)

-- 2 to the power of `n` and so on, so many of them
abbrev pub powers_of_two : (n count : ℕ) → List ℕ
powers_of_two n zero = []
powers_of_two n (suc count) = 2 ^ n ∷ powers_of_two (suc n) count

-- What was returned, having slept that long in addition
abbrev pub ReturnsAfter : List ℕ → List ℕ → Written → Type 0
ReturnsAfter before waits (result, after) = (result ≡ ok tt) × (after.sleeps ≡ before ++ waits)

module _ (host : Host) (temporary file_path : Text) where
  rename_from_cleared :
      (remaining attempt : ℕ) (last_error : Text) (disk : Disk)
      → host.rename attempt ≡ none
      → rename_from host temporary file_path (suc remaining) attempt last_error disk
        ≡ (ok tt, renamed temporary file_path (back_off attempt disk))
  unfolding rename_from
  rename_from_cleared remaining attempt last_error disk clears =
      ap
        (λ answer. elim answer [
          | none ↦ (ok tt, renamed temporary file_path (back_off attempt disk))
          | some error ↦ elim (is_retryable error.code) [
            | true ↦
                rename_from host temporary file_path remaining (suc attempt) error.message
                  (back_off attempt disk)
            | false ↦ give_up host temporary file_path error.message (back_off attempt disk)
          ]
        ])
        clears

  rename_from_locked :
      (remaining attempt : ℕ) (last_error : Text) (disk : Disk) (error : SystemError)
      → host.rename attempt ≡ some error
      → is_retryable error.code ≡ true
      → rename_from host temporary file_path (suc remaining) attempt last_error disk
        ≡ rename_from host temporary file_path remaining
            (suc attempt)
            error.message
            (back_off attempt disk)
  unfolding rename_from
  rename_from_locked remaining attempt last_error disk error fails lock =
      ap
        (λ answer. elim answer [
          | none ↦ (ok tt, renamed temporary file_path (back_off attempt disk))
          | some error ↦ elim (is_retryable error.code) [
            | true ↦
                rename_from host temporary file_path remaining (suc attempt) error.message
                  (back_off attempt disk)
            | false ↦ give_up host temporary file_path error.message (back_off attempt disk)
          ]
        ])
        fails
      ∙ ap
          (λ retries. elim retries [
            | true ↦
                rename_from host temporary file_path remaining (suc attempt) error.message
                  (back_off attempt disk)
            | false ↦ give_up host temporary file_path error.message (back_off attempt disk)
          ])
          lock

  retried_ReturnsAfter :
      (remaining locked n : ℕ) (last_error : Text) (disk : Disk)
      → locked < remaining
      → ClearsAfter host locked (suc n)
      → ReturnsAfter disk.sleeps
          (powers_of_two (suc n) (suc locked))
          (rename_from host temporary file_path remaining (suc n) last_error disk)
  retried_ReturnsAfter zero locked n last_error disk enough clears = absurd (omega (arith, enough))
  retried_ReturnsAfter (suc remaining) zero n last_error disk enough clears =
      subst (ReturnsAfter disk.sleeps (powers_of_two (suc n) 1))
        (sym (rename_from_cleared remaining (suc n) last_error disk clears)) (refl, refl)
  retried_ReturnsAfter (suc remaining) (suc locked) n last_error disk enough
        ((error, fails, lock), clears) =
      let waited = back_off (suc n) disk in
      let (returned, slept) =
        retried_ReturnsAfter remaining locked (suc n) error.message waited (omega (arith, enough))
          clears in
      subst (ReturnsAfter disk.sleeps (powers_of_two (suc n) (suc (suc locked))))
        (sym (rename_from_locked remaining (suc n) last_error disk error fails lock))
        (
          returned,
          slept
              ∙ append_assoc disk.sleeps (2 ^ suc n ∷ [])
                  (powers_of_two (suc (suc n)) (suc locked)),
        )

  first_ReturnsAfter :
      (remaining locked : ℕ) (last_error : Text) (disk : Disk)
      → locked < remaining
      → ClearsAfter host locked 0
      → ReturnsAfter disk.sleeps
          (powers_of_two 1 locked)
          (rename_from host temporary file_path remaining 0 last_error disk)
  first_ReturnsAfter zero locked last_error disk enough clears = absurd (omega (arith, enough))
  first_ReturnsAfter (suc remaining) zero last_error disk enough clears =
      subst (ReturnsAfter disk.sleeps [])
        (sym (rename_from_cleared remaining 0 last_error disk clears))
        (refl, sym (append-nil disk.sleeps))
  first_ReturnsAfter (suc remaining) (suc locked) last_error disk enough
        ((error, fails, lock), clears) =
      subst (ReturnsAfter disk.sleeps (powers_of_two 1 (suc locked)))
        (sym (rename_from_locked remaining 0 last_error disk error fails lock))
        (retried_ReturnsAfter remaining locked 0 error.message disk (omega (arith, enough)) clears)

-- A short lock is waited out: where the temporary file is written, and the first renamings fail with a
-- lock, at most four of them, and the next one succeeds, `atomic_write_file` returns, after one sleep
-- for each that failed, of 2, 4, 8 and 16 milliseconds.
pub atomic_write_file-ReturnsAfter :
    (host : Host) (pid tag file_path contents : Text) (disk : Disk) (locked : ℕ)
    → host.write ≡ written
    → locked < atomic_write_rename_attempts_limit
    → ClearsAfter host locked 0
    → ReturnsAfter disk.sleeps
        (powers_of_two 1 locked)
        (atomic_write_file host pid tag file_path contents disk)
unfolding atomic_write_file
atomic_write_file-ReturnsAfter host pid tag file_path contents disk locked writes enough clears =
    let temporary = temporary_path file_path pid tag in
    subst
      (λ answer.
        ReturnsAfter disk.sleeps (powers_of_two 1 locked)
          (after_write host temporary file_path contents answer disk))
      (sym writes)
      (first_ReturnsAfter host temporary file_path atomic_write_rename_attempts_limit locked []
        (record disk { files = put disk.files temporary contents }) enough clears)
