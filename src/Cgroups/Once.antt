-- ===== src/Cgroups/Once.antt =====
-- src/cgroups.ts: one probe and at most one warning in a process.
use patchlab.Common.{
  ℕ, Text, length, ◌+◌, Option, none, some, if◌then◌else◌, Bool, true, false, List, [], ◌++◌, arith,
  ◌≡◌, ap, refl, length-append,
}
use patchlab.Cgroups.{
  CgroupProbeResult, supported, unsupported, Host, Process, fresh_process,
  probe_cgroup_capabilities, warn_if_unsupported, cached_or_fresh, warn_once_if_unsupported,
}

-- A call of the module, with the host as it is then.
pub data Step : Process → List Text → Process → Type 0 where
  probed : (host : Host) (p : Process) → Step p [] (probe_cgroup_capabilities host p).1
  warned :
      (host : Host) (p : Process)
      → Step p (warn_once_if_unsupported host p).0 (warn_once_if_unsupported host p).1

-- A process's calls in order, and all that they log.
pub data Steps : Process → List Text → Process → Type 0 where
  done : (p : Process) → Steps p [] p
  step :
      (p q r : Process) (logged rest : List Text)
      → Step p logged q
      → Steps q rest r
      → Steps p (logged ++ rest) r

abbrev pub warnings_left : Bool → ℕ
warnings_left true = 0
warnings_left false = 1

probe_keeps :
    (host : Host) (p : Process) (cached : Option CgroupProbeResult)
    → warnings_left ((cached_or_fresh host p cached).1.warning_emitted)
      ≡ warnings_left (p.warning_emitted)
probe_keeps host p none = refl
probe_keeps host p (some result) = refl

warn_counts :
    (answer : CgroupProbeResult × Process)
    → warnings_left (answer.1.warning_emitted) ≡ 1
    → length (warn_if_unsupported answer).0
        + warnings_left ((warn_if_unsupported answer).1.warning_emitted)
      ≡ 1
warn_counts (supported reason, p) h = omega (arith, h)
warn_counts (unsupported reason, p) h = refl

guarded_counts :
    (b : Bool) (answer : CgroupProbeResult × Process) (p : Process)
    → p.warning_emitted ≡ b
    → warnings_left (answer.1.warning_emitted) ≡ warnings_left b
    → length (if b then ([], p) else warn_if_unsupported answer).0
        + warnings_left ((if b then ([], p) else warn_if_unsupported answer).1.warning_emitted)
      ≡ warnings_left b
guarded_counts true answer p e h = omega (arith, ap warnings_left e)
guarded_counts false answer p e h = warn_counts answer h

Step-warnings :
    (p q : Process) (logged : List Text)
    → Step p logged q
    → length logged + warnings_left (q.warning_emitted) ≡ warnings_left (p.warning_emitted)
unfolding probe_cgroup_capabilities warn_once_if_unsupported
Step-warnings p _ _ (probed host _) = omega (arith, probe_keeps host p (p.cached_probe_result))
Step-warnings p _ _ (warned host _) =
    let cached = p.cached_probe_result in
    guarded_counts (p.warning_emitted) (cached_or_fresh host p cached) p refl
      (probe_keeps host p cached)

-- However often a process probes and warns, on whatever the host answers, it logs at most one
-- warning, and it has logged one exactly when its latch is set.
pub warn_once :
    (logged : List Text) (p : Process)
    → Steps fresh_process logged p
    → length logged + warnings_left (p.warning_emitted) ≡ 1
warn_once logged p s = Steps-warnings fresh_process p logged s
  where
    Steps-warnings :
        (p q : Process) (logged : List Text)
        → Steps p logged q
        → length logged + warnings_left (q.warning_emitted) ≡ warnings_left (p.warning_emitted)
    Steps-warnings p _ _ (done _) = omega arith
    Steps-warnings p r _ (step _ q _ now rest s ss) =
        omega (arith, length-append now rest, Step-warnings p q now s, Steps-warnings q r rest ss)

-- A process that has the result cached.
abbrev Caches : CgroupProbeResult → Process → Type 0
Caches result p = p.cached_probe_result ≡ some result

probe_again-Caches :
    (host : Host) (p : Process) (cached : Option CgroupProbeResult) (result : CgroupProbeResult)
    → cached ≡ some result
    → Caches result p
    → ((cached_or_fresh host p cached).0 ≡ result) × Caches result (cached_or_fresh host p cached).1
probe_again-Caches host p none result e h = cc
probe_again-Caches host p (some other) result e h = (cc, h)

guarded-Caches :
    (b : Bool) (answer : CgroupProbeResult × Process) (p : Process) (result : CgroupProbeResult)
    → Caches result p
    → Caches result (answer.1)
    → Caches result (if b then ([], p) else warn_if_unsupported answer).1
guarded-Caches true answer p result h k = h
guarded-Caches false (supported reason, q) p result h k = k
guarded-Caches false (unsupported reason, q) p result h k = k

Step-Caches :
    (p q : Process) (logged : List Text) (result : CgroupProbeResult)
    → Step p logged q
    → Caches result p
    → Caches result q
unfolding probe_cgroup_capabilities warn_once_if_unsupported
Step-Caches p _ _ result (probed host _) h =
    (probe_again-Caches host p (p.cached_probe_result) result h h).1
Step-Caches p _ _ result (warned host _) h =
    let cached = p.cached_probe_result in
    guarded-Caches (p.warning_emitted) (cached_or_fresh host p cached) p result h
      (probe_again-Caches host p cached result h h).1

Steps-Caches :
    (p q : Process) (logged : List Text) (result : CgroupProbeResult)
    → Steps p logged q
    → Caches result p
    → Caches result q
Steps-Caches p _ _ result (done _) h = h
Steps-Caches p r _ result (step _ q _ now rest s ss) h =
    Steps-Caches q r rest result ss (Step-Caches p q now result s h)

probe-Caches :
    (host : Host) (p : Process) (cached : Option CgroupProbeResult)
    → p.cached_probe_result ≡ cached
    → Caches (cached_or_fresh host p cached).0 (cached_or_fresh host p cached).1
probe-Caches host p none e = refl
probe-Caches host p (some result) e = e

-- A probe's answer is every later probe's answer in that process, whatever calls come between
-- and however the host has changed by then.
pub probe_cgroup_capabilities_stable :
    (host later : Host) (p q : Process) (logged : List Text)
    → Steps (probe_cgroup_capabilities host p).1 logged q
    → (probe_cgroup_capabilities later q).0 ≡ (probe_cgroup_capabilities host p).0
unfolding probe_cgroup_capabilities
probe_cgroup_capabilities_stable host later p q logged steps =
    let kept = Steps-Caches _ q logged _ steps (probe-Caches host p (p.cached_probe_result) refl) in
    (probe_again-Caches later q (q.cached_probe_result) _ kept kept).0
