-- ===== src/Cgroups/Probe.antt =====
-- src/cgroups.ts: when the probe answers that limits are enforced.
use patchlab.Common.{
  Text, codes, has, some, Result, ok, err, true, arith, ◌≡◌, ◌↔◌, refl, Option-cases, ◌⊎◌, inl, inr,
}
use patchlab.Cgroups.{
  supported, controllers_present, Host, proc_self_cgroup, parse_unified_cgroup_path,
  controllers_file, controllers_of, missing_controllers, probe_linux_cgroup_v2, report_missing,
}

-- The unified hierarchy's controllers are readable and hold memory and cpu.
pub record Delegates (host : Host) : Type 0 where
  hierarchy : Text
  path : Text
  contents : Text
  hierarchy_read : host.read_file proc_self_cgroup ≡ ok hierarchy
  path_parsed : parse_unified_cgroup_path hierarchy ≡ some path
  contents_read : host.read_file (controllers_file path) ≡ ok contents
  has_memory : has (controllers_of contents) (codes "memory") ≡ true
  has_cpu : has (controllers_of contents) (codes "cpu") ≡ true

Result-cases : {E A : Type 0} (r : Result E A) → ((e : E) × (r ≡ err e)) ⊎ ((a : A) × (r ≡ ok a))
Result-cases (err e) = inl (e, refl)
Result-cases (ok a) = inr (a, refl)

-- On Linux the probe answers that the controllers are present exactly when the host
-- delegates both the memory and the cpu controller.
pub probe_linux_cgroup_v2_iff :
    (host : Host) → (probe_linux_cgroup_v2 host ≡ supported controllers_present) ↔ Delegates host
unfolding probe_linux_cgroup_v2 missing_controllers
probe_linux_cgroup_v2_iff host = (forth, back)
  where
    back : Delegates host → probe_linux_cgroup_v2 host ≡ supported controllers_present
    back d = rw (d.hierarchy_read, d.path_parsed, d.contents_read, d.has_memory, d.has_cpu) refl

    present :
        (hierarchy path contents : Text)
        → host.read_file proc_self_cgroup ≡ ok hierarchy
        → parse_unified_cgroup_path hierarchy ≡ some path
        → host.read_file (controllers_file path) ≡ ok contents
        → report_missing contents (missing_controllers (controllers_of contents))
          ≡ supported controllers_present
        → Delegates host
    present hierarchy path contents q n c h = record {
      hierarchy = hierarchy;
      path = path;
      contents = contents;
      hierarchy_read = q;
      path_parsed = n;
      contents_read = c;
      has_memory = ground (arith, h);
      has_cpu = ground (arith, h);
    }

    forth : probe_linux_cgroup_v2 host ≡ supported controllers_present → Delegates host
    forth h = elim (Result-cases (host.read_file proc_self_cgroup)) [
      | inl (e, q) ↦ absurd (ground (arith, rw q at h))
      | inr (hierarchy, q) ↦ elim (Option-cases (parse_unified_cgroup_path hierarchy)) [
        | inl n ↦ absurd (ground (arith, rw (q, n) at h))
        | inr (path, n) ↦ elim (Result-cases (host.read_file (controllers_file path))) [
          | inl (e, c) ↦ absurd (ground (arith, rw (q, n, c) at h))
          | inr (contents, c) ↦ present hierarchy path contents q n c (rw (q, n, c) at h)
        ]
      ]
    ]
