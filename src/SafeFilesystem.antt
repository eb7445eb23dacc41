-- ===== src/SafeFilesystem.antt =====
-- src/safe_filesystem.ts: the write through a temporary file. The files are a map from paths to contents;
-- what the system answers to each call is `Host`, and the bytes of a file are its text.
pub mod Atomic
pub mod Retries
mod Tests
use patchlab.Common.{
  ℕ, zero, suc, ◌+◌, ◌*◌, ◌^◌, Text, codes, text_eq, Bool, true, false, not, ◌||◌, List, [], ◌∷◌,
  ◌++◌, Option, none, some, Result, ok, err, Assoc, get, put, if◌then◌else◌,
}

pub data Code : Type 0 where
  eperm eacces ebusy enoent other_code : Code

pub record SystemError : Type 0 where
  pub code : Code
  pub message : Text

pub data WriteAnswer : Type 0 where
  written : WriteAnswer
  -- A failing write may leave a part of the contents behind.
  write_failed : (partial : Option Text) (error : SystemError) → WriteAnswer

pub record Host : Type 0 where
  pub write : WriteAnswer
  -- none where the renaming succeeds
  pub rename : (attempt : ℕ) → Option SystemError
  pub unlink : Option SystemError

pub record Disk : Type 0 where
  pub files : Assoc Text
  -- the calls of sleep_synchronously, and what was warned of
  pub sleeps : List ℕ
  pub warnings : List Text

unfoldable pub remove : Assoc Text → Text → Assoc Text
remove [] path = []
remove ((name, contents) ∷ files) path =
    let rest = remove files path in if text_eq name path then rest else (name, contents) ∷ rest

abbrev pub is_enoent : Code → Bool
is_enoent enoent = true
is_enoent _ = false

abbrev pub unlinked : Text → Option SystemError → Disk → Disk
unlinked file none disk = record disk { files = remove disk.files file }
unlinked file (some error) disk =
    if is_enoent error.code
    then disk
    else record disk { warnings = disk.warnings ++ error.message ∷ [] }

unfoldable pub safe_unlink : Host → (file : Text) → Disk → Disk
safe_unlink host file disk = unlinked file host.unlink disk

abbrev pub atomic_write_rename_attempts_limit : ℕ
atomic_write_rename_attempts_limit = 5

-- The back-off before every attempt but the first
abbrev pub back_off : (attempt : ℕ) → Disk → Disk
back_off zero disk = disk
back_off (suc n) disk = record disk { sleeps = disk.sleeps ++ 2 ^ suc n ∷ [] }

abbrev pub moved : Option Text → (from to : Text) → Assoc Text → Assoc Text
moved none from to files = files
moved (some contents) from to files = put (remove files from) to contents

abbrev pub renamed : (from to : Text) → Disk → Disk
renamed from to disk = record disk { files = moved (get disk.files from) from to disk.files }

abbrev pub is_retryable : Code → Bool
is_retryable eperm = true
is_retryable eacces = true
is_retryable ebusy = true
is_retryable _ = false

abbrev pub Written : Type 0
Written = Result Text (Unit {0}) × Disk

module _ (host : Host) (temporary file_path : Text) where
  abbrev pub give_up : (last_error : Text) → Disk → Written
  give_up last_error disk = (err last_error, safe_unlink host temporary disk)

  -- With that many attempts left
  unfoldable pub rename_from : (remaining attempt : ℕ) → (last_error : Text) → Disk → Written
  rename_from zero attempt last_error disk = give_up last_error disk
  rename_from (suc remaining) attempt last_error disk = elim (host.rename attempt) [
    | none ↦ (ok tt, renamed temporary file_path (back_off attempt disk))
    | some error ↦ elim (is_retryable error.code) [
      | true ↦ rename_from remaining (suc attempt) error.message (back_off attempt disk)
      | false ↦ give_up error.message (back_off attempt disk)
    ]
  ]

  abbrev pub after_write : (contents : Text) → WriteAnswer → Disk → Written
  after_write contents (write_failed none error) disk =
      (err error.message, safe_unlink host temporary disk)
  after_write contents (write_failed (some partial) error) disk = (
    err error.message,
    safe_unlink host temporary (record disk { files = put disk.files temporary partial }),
  )
  after_write contents written disk =
      rename_from atomic_write_rename_attempts_limit 0 []
        (record disk { files = put disk.files temporary contents })

-- The tag and the process id
unfoldable pub temporary_path : (file_path pid tag : Text) → Text
temporary_path file_path pid tag = file_path ++ (codes ".tmp." ++ (pid ++ (codes "." ++ tag)))

unfoldable pub atomic_write_file :
    Host → (pid tag : Text) → (file_path contents : Text) → Disk → Written
unfolding rename_from
atomic_write_file host pid tag file_path contents disk =
    after_write host (temporary_path file_path pid tag) file_path contents host.write disk
