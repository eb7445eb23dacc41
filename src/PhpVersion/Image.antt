-- ===== src/PhpVersion/Image.antt =====
-- src/languages/php_version.ts: when a lock file throws.
use patchlab.Common.{err, ◌≡◌, ◌↔◌, refl}
use patchlab.Json.{null, boolean, number, string, array, object}
use patchlab.PhpVersion.{
  ProjectFile, absent, malformed, parsed, property_of_null, resolve_php_version_from_lock,
}

-- Reading the lock file throws exactly when the whole document is null.
pub resolve_php_version_from_lock-eq-err_iff :
    (file : ProjectFile)
    → (resolve_php_version_from_lock file ≡ err property_of_null) ↔ (file ≡ parsed null)
unfolding resolve_php_version_from_lock
resolve_php_version_from_lock-eq-err_iff absent = (λ h. cc, λ h. cc)
resolve_php_version_from_lock-eq-err_iff malformed = (λ h. cc, λ h. cc)
resolve_php_version_from_lock-eq-err_iff (parsed null) = (λ _. refl, λ _. refl)
resolve_php_version_from_lock-eq-err_iff (parsed (boolean b)) = (λ h. cc, λ h. cc)
resolve_php_version_from_lock-eq-err_iff (parsed (number _)) = (λ h. cc, λ h. cc)
resolve_php_version_from_lock-eq-err_iff (parsed (string t)) = (λ h. cc, λ h. cc)
resolve_php_version_from_lock-eq-err_iff (parsed (array es)) = (λ h. cc, λ h. cc)
resolve_php_version_from_lock-eq-err_iff (parsed (object ms)) = (λ h. cc, λ h. cc)
