-- ===== src/Detection/Merged.antt =====
-- src/detect/pipeline.ts: the whole merge of what the detectors found.
use patchlab.Common.{
  ◌≡◌, refl, sym, ap, ◌∙◌, Text, List, [], ◌∷◌, ◌++◌, append-nil, append_assoc, Option, none, some,
  ok, err, get,
}
use mathlib.Core.Path.{subst}
use patchlab.OverridesMerge.{
  SystemPackageRequirement, VolumeMountRequirement, EnvironmentVariableRequirement,
  ServiceRequirement, NpmPackageRequirement, DetectedRequirements, mount_string,
}
use patchlab.Detection.{
  SandboxRequirement, system_package, volume_mount, environment_var, service, npm_package, Merge,
  merge_one, merge_all, empty_merge, Detector, run_detectors, detect_requirements,
}
use patchlab.Detection.FirstWins.{
  Wins, Wins-dedupe_by_key, VariablesWin, VariablesWin-merge, IsFirstWins,
}

abbrev prepend : {A : Type 0} → Option A → List A → List A
prepend none xs = xs
prepend (some x) xs = x ∷ xs

-- The requirements of one type, in order.
abbrev pub collect :
    {A : Type 0} → (SandboxRequirement → Option A) → List SandboxRequirement → List A
collect f [] = []
collect f (r ∷ requirements) = prepend (f r) (collect f requirements)

abbrev pub as_package : SandboxRequirement → Option SystemPackageRequirement
as_package (system_package r) = some r
as_package _ = none

abbrev pub as_mount : SandboxRequirement → Option VolumeMountRequirement
as_mount (volume_mount r) = some r
as_mount _ = none

abbrev pub as_variable : SandboxRequirement → Option EnvironmentVariableRequirement
as_variable (environment_var r) = some r
as_variable _ = none

abbrev pub as_service : SandboxRequirement → Option ServiceRequirement
as_service (service r) = some r
as_service _ = none

abbrev pub as_npm : SandboxRequirement → Option NpmPackageRequirement
as_npm (npm_package r) = some r
as_npm _ = none

prepend-append :
    {A : Type 0} (o : Option A) (xs ys : List A) → prepend o (xs ++ ys) ≡ prepend o xs ++ ys
prepend-append none xs ys = refl
prepend-append (some x) xs ys = refl

collect-append :
    {A : Type 0} (f : SandboxRequirement → Option A) (done : List SandboxRequirement)
    (r : SandboxRequirement)
    → collect f (done ++ r ∷ []) ≡ collect f done ++ prepend (f r) []
collect-append f [] r = refl
collect-append f (d ∷ done) r =
    ap (prepend (f d)) (collect-append f done r)
    ∙ prepend-append (f d) (collect f done) (prepend (f r) [])

-- A merge in each part of which the first of the requirements so far win.
record AllWin (done : List SandboxRequirement) (m : Merge) : Type 0 where
  packages :
      Wins
        (λ r. r.capability)
        (collect as_package done)
        m.system_packages.seen
        m.system_packages.target
  mounts : Wins mount_string (collect as_mount done) m.volume_mounts.seen m.volume_mounts.target
  variables : VariablesWin (collect as_variable done) m.environment_variables
  services : Wins (λ r. r.name) (collect as_service done) m.services.seen m.services.target
  npm : Wins (λ r. r.npm_package) (collect as_npm done) m.npm_packages.seen m.npm_packages.target

module _ {A : Type 0} (f : SandboxRequirement → Option A) (P : List A → Type 0) where
  -- A requirement of another type changes nothing in a part.
  other :
      (done : List SandboxRequirement) (r : SandboxRequirement)
      → f r ≡ none
      → P (collect f done)
      → P (collect f (done ++ r ∷ []))
  other done r e h =
      subst P
        (sym (
          collect-append f done r
          ∙ (ap (λ o. collect f done ++ prepend o []) e ∙ append-nil (collect f done))))
        h

  one_more :
      (done : List SandboxRequirement) (r : SandboxRequirement) (x : A)
      → f r ≡ some x
      → P (collect f done ++ x ∷ [])
      → P (collect f (done ++ r ∷ []))
  one_more done r x e h =
      subst P (sym (collect-append f done r ∙ ap (λ o. collect f done ++ prepend o []) e)) h

module _ (done : List SandboxRequirement) (m : Merge) (w : AllWin done m) where
  same_packages :
      (r : SandboxRequirement)
      → as_package r ≡ none
      → Wins
          (λ r. r.capability)
          (collect as_package (done ++ r ∷ []))
          m.system_packages.seen
          m.system_packages.target
  same_packages r e =
      other as_package
        (λ xs. Wins (λ r. r.capability) xs m.system_packages.seen m.system_packages.target) done r e
        w.packages

  same_mounts :
      (r : SandboxRequirement)
      → as_mount r ≡ none
      → Wins mount_string
          (collect as_mount (done ++ r ∷ []))
          m.volume_mounts.seen
          m.volume_mounts.target
  same_mounts r e =
      other as_mount (λ xs. Wins mount_string xs m.volume_mounts.seen m.volume_mounts.target) done r
        e w.mounts

  same_variables :
      (r : SandboxRequirement)
      → as_variable r ≡ none
      → VariablesWin (collect as_variable (done ++ r ∷ [])) m.environment_variables
  same_variables r e =
      other as_variable (λ xs. VariablesWin xs m.environment_variables) done r e w.variables

  same_services :
      (r : SandboxRequirement)
      → as_service r ≡ none
      → Wins (λ r. r.name) (collect as_service (done ++ r ∷ [])) m.services.seen m.services.target
  same_services r e =
      other as_service (λ xs. Wins (λ r. r.name) xs m.services.seen m.services.target) done r e
        w.services

  same_npm :
      (r : SandboxRequirement)
      → as_npm r ≡ none
      → Wins
          (λ r. r.npm_package)
          (collect as_npm (done ++ r ∷ []))
          m.npm_packages.seen
          m.npm_packages.target
  same_npm r e =
      other as_npm (λ xs. Wins (λ r. r.npm_package) xs m.npm_packages.seen m.npm_packages.target)
        done r e w.npm

  AllWin-merge_one : (r : SandboxRequirement) → AllWin (done ++ r ∷ []) (merge_one r m)
  AllWin-merge_one (system_package r) =
      let q = system_package r in
      record {
        packages =
            one_more as_package
              (λ xs.
                Wins (λ r. r.capability) xs (merge_one q m).system_packages.seen
                  (merge_one q m).system_packages.target)
              done q r refl
              (Wins-dedupe_by_key (λ r. r.capability) (collect as_package done) r m.system_packages
                w.packages);
        mounts = same_mounts q refl;
        variables = same_variables q refl;
        services = same_services q refl;
        npm = same_npm q refl;
      }
  AllWin-merge_one (volume_mount r) =
      let q = volume_mount r in
      record {
        packages = same_packages q refl;
        mounts =
            one_more as_mount
              (λ xs.
                Wins mount_string xs (merge_one q m).volume_mounts.seen
                  (merge_one q m).volume_mounts.target)
              done q r refl
              (Wins-dedupe_by_key mount_string (collect as_mount done) r m.volume_mounts w.mounts);
        variables = same_variables q refl;
        services = same_services q refl;
        npm = same_npm q refl;
      }
  AllWin-merge_one (environment_var r) =
      let q = environment_var r in
      record {
        packages = same_packages q refl;
        mounts = same_mounts q refl;
        variables =
            one_more as_variable (λ xs. VariablesWin xs (merge_one q m).environment_variables) done
              q r refl
              (VariablesWin-merge (collect as_variable done) r m.environment_variables w.variables);
        services = same_services q refl;
        npm = same_npm q refl;
      }
  AllWin-merge_one (service r) =
      let q = service r in
      record {
        packages = same_packages q refl;
        mounts = same_mounts q refl;
        variables = same_variables q refl;
        services =
            one_more as_service
              (λ xs.
                Wins (λ r. r.name) xs (merge_one q m).services.seen (merge_one q m).services.target)
              done q r refl
              (Wins-dedupe_by_key (λ r. r.name) (collect as_service done) r m.services w.services);
        npm = same_npm q refl;
      }
  AllWin-merge_one (npm_package r) =
      let q = npm_package r in
      record {
        packages = same_packages q refl;
        mounts = same_mounts q refl;
        variables = same_variables q refl;
        services = same_services q refl;
        npm =
            one_more as_npm
              (λ xs.
                Wins (λ r. r.npm_package) xs (merge_one q m).npm_packages.seen
                  (merge_one q m).npm_packages.target)
              done q r refl
              (Wins-dedupe_by_key (λ r. r.npm_package) (collect as_npm done) r m.npm_packages
                w.npm);
      }

AllWin-merge_all :
    (done requirements : List SandboxRequirement) (m : Merge)
    → AllWin done m
    → AllWin (done ++ requirements) (merge_all requirements m)
unfolding merge_all
AllWin-merge_all done [] m w = subst (λ xs. AllWin xs m) (sym (append-nil done)) w
AllWin-merge_all done (r ∷ requirements) m w =
    subst (λ xs. AllWin xs (merge_all requirements (merge_one r m)))
      (append_assoc done (r ∷ []) requirements)
      (AllWin-merge_all (done ++ r ∷ []) requirements (merge_one r m) (AllWin-merge_one done m w r))

-- A result in each part of which the first of the found requirements with each key wins, and no
-- key stands twice.
pub record AllFirstWin (found : List SandboxRequirement) (result : DetectedRequirements)
    : Type 0 where
  packages_win : IsFirstWins (λ r. r.capability) (collect as_package found) result.system_packages
  mounts_win : IsFirstWins mount_string (collect as_mount found) result.volume_mounts
  variables_win : IsFirstWins (λ r. r.key) (collect as_variable found) result.environment_variables
  services_win : IsFirstWins (λ r. r.name) (collect as_service found) result.services
  npm_win : IsFirstWins (λ r. r.npm_package) (collect as_npm found) result.npm_packages

-- What a detector contributes: nothing where it throws
abbrev pub contribution : Detector → List SandboxRequirement
contribution (name, ok requirements) = requirements
contribution (name, err message) = []

-- All contributions, the first detector's first
abbrev pub contributions : List Detector → List SandboxRequirement
contributions [] = []
contributions (detector ∷ detectors) = contribution detector ++ contributions detectors

run_detectors-contributions :
    (detectors : List Detector) → (run_detectors detectors).0 ≡ contributions detectors
unfolding run_detectors
run_detectors-contributions [] = refl
run_detectors-contributions ((name, ok requirements) ∷ detectors) =
    ap (λ rest. requirements ++ rest) (run_detectors-contributions detectors)
run_detectors-contributions ((name, err message) ∷ detectors) =
    run_detectors-contributions detectors

merged-AllFirstWin :
    (detectors : List Detector)
    → AllFirstWin (run_detectors detectors).0 (detect_requirements detectors).0
unfolding detect_requirements get
merged-AllFirstWin detectors =
    let (requirements, warnings) = run_detectors detectors in
    let start : AllWin [] (empty_merge warnings) = record {
      packages = (refl, record { first = λ k. refl; distinct = tt });
      mounts = (refl, record { first = λ k. refl; distinct = tt });
      variables = ((λ k. no_variable k), record { first = λ k. refl; distinct = tt });
      services = (refl, record { first = λ k. refl; distinct = tt });
      npm = (refl, record { first = λ k. refl; distinct = tt });
    } in
    let w = AllWin-merge_all [] requirements (empty_merge warnings) start in
    record {
      packages_win = w.packages.1;
      mounts_win = w.mounts.1;
      variables_win = w.variables.1;
      services_win = w.services.1;
      npm_win = w.npm.1;
    }
  where
    no_variable : (k : Text) → get {V = EnvironmentVariableRequirement} [] k ≡ none
    no_variable k = refl

-- The result holds, for each package, mount, variable, service and npm package, the first
-- requirement with that key among what the detectors contribute, and no key twice: an earlier detector
-- wins over a later one, within a detector the earlier requirement, and a detector that throws
-- contributes nothing and takes nothing from the others.
pub detect_requirements-AllFirstWin :
    (detectors : List Detector)
    → AllFirstWin (contributions detectors) (detect_requirements detectors).0
detect_requirements-AllFirstWin detectors =
    subst (λ found. AllFirstWin found (detect_requirements detectors).0)
      (run_detectors-contributions detectors) (merged-AllFirstWin detectors)
