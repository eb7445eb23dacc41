-- ===== src/SafeFilesystem/Tests.antt =====
-- Runs of src/safe_filesystem.ts, and its theorems at concrete inputs.
use patchlab.Common.{
  ◌≡◌, refl, ℕ, zero, suc, codes, text_eq, [], ◌∷◌, Option, none, some, ok, err, get, put, arith,
}
use patchlab.SafeFilesystem.{
  ebusy, other_code, SystemError, written, write_failed, Host, Disk, remove, safe_unlink,
  temporary_path, atomic_write_file,
}
use patchlab.SafeFilesystem.Atomic.{IsAtomic, atomic_write_file-IsAtomic}
use patchlab.SafeFilesystem.Retries.{ReturnsAfter, powers_of_two, atomic_write_file-ReturnsAfter}

abbrev busy : SystemError
busy = record { code = ebusy; message = codes "busy" }

abbrev full : SystemError
full = record { code = other_code; message = codes "no space" }

-- Another process holds the file during the first two attempts.
abbrev held_twice : ℕ → Option SystemError
held_twice zero = some busy
held_twice (suc zero) = some busy
held_twice (suc (suc n)) = none

abbrev held : Host
held = record { write = written; rename = held_twice; unlink = none }

abbrev full_disk : Host
full_disk = record {
  write = write_failed (some (codes "ne")) full;
  rename = held_twice;
  unlink = none;
}

abbrev before : Disk
before = record { files = (codes "a", codes "old") ∷ []; sleeps = []; warnings = [] }

retried_run :
    atomic_write_file held (codes "7") (codes "x") (codes "a") (codes "new") before
    ≡ (ok tt, record { files = (codes "a", codes "new") ∷ []; sleeps = 2 ∷ 4 ∷ []; warnings = [] })
unfolding atomic_write_file get put text_eq temporary_path remove
retried_run = refl

full_run :
    atomic_write_file full_disk (codes "7") (codes "x") (codes "a") (codes "new") before
    ≡ (err (codes "no space"), before)
unfolding atomic_write_file safe_unlink remove put text_eq temporary_path
full_run = refl

atomic_write_file-IsAtomic_example :
    IsAtomic
      (temporary_path (codes "a") (codes "7") (codes "x"))
      (codes "a")
      (codes "new")
      before
      (atomic_write_file held (codes "7") (codes "x") (codes "a") (codes "new") before)
atomic_write_file-IsAtomic_example =
    atomic_write_file-IsAtomic held (codes "7") (codes "x") (codes "a") (codes "new") before

atomic_write_file-ReturnsAfter_example :
    ReturnsAfter []
      (powers_of_two 1 2)
      (atomic_write_file held (codes "7") (codes "x") (codes "a") (codes "new") before)
atomic_write_file-ReturnsAfter_example =
    atomic_write_file-ReturnsAfter held (codes "7") (codes "x") (codes "a") (codes "new") before 2
      refl (omega arith) ((busy, refl, refl), ((busy, refl, refl), refl))
