-- ===== src/Lib.antt =====
-- A model of patchlab, which runs coding tools in container sandboxes and brings their changes back
-- as commits on branches of the host's repositories.
--
-- The parts and how they meet. A sandbox is created with resource limits, which
-- src/resource_limits.ts resolves from five layers; src/configuration.ts reads two of them from the
-- user's file and from those of the repositories. src/cgroups.ts warns once where the host cannot
-- enforce them. What the sandbox needs is detected (src/detect/pipeline.ts), and
-- src/overrides_merge.ts combines it with the user's overrides; src/languages/php_version.ts chooses
-- the image of a PHP project. When a session ends, src/branch/session_commit.ts slices the diff for
-- each repository that src/manifest.ts finds among the sources, src/diff_path_rewrite.ts renames the
-- mounts in it, and the result is committed or kept as a patch. src/manifest.ts keeps what is known
-- of a patchlab on disk; it checks with src/json_validators.ts what it reads. src/branch/apply.ts
-- brings the commits of the sessions onto the user's branch, and src/branch/delete.ts deletes the
-- branches of a patchlab behind a check for work that stands nowhere else;
-- src/tools/default_tool_trust.ts asks before a repository chooses the tool. src/safe_filesystem.ts
-- writes the files of all of them. src/path_containment.ts decides for all of them whether a path
-- lies within another.
--
-- Which file models which part:
--   Common          text as code units, lists, association lists, decimal numerals, results; Floats
--                   has the numerals that Number and Number.parseFloat read, with their exponents
--   ResourceLimits  src/resource_limits.ts: Parse (parse_memory_value, parse_cpus_value,
--                   parse_pids_value, parse_blkio_weight_value, format_memory_for_podman,
--                   memory_string_to_bytes), Resolve (compute_runtime_defaults,
--                   resolve_resource_limits and its helpers), Disk (the converters over
--                   RESOURCE_LIMIT_FIELD_MAP), Guard (argv_contains_resource_flag_negative)
--   DiffRewrite     src/diff_path_rewrite.ts: the state of the stream is its line_carry; transform
--                   and flush are its two handlers, run_stream a whole run; binary is the encoding
--                   of their output
--   Json            the values of JSON.parse and YAML.parse; JsonValidators src/json_validators.ts
--   NodePath        join, relative and isAbsolute of node:path on a POSIX host
--   Manifest        src/manifest.ts: Sources (resolve_sources_from_raw and what it calls), Create
--                   (create_manifest, the writer's checks), Read (read_manifest), Write
--                   (write_manifest), Roots (try_read_manifest_repository_roots); Repositories,
--                   Created, Written, Stored, Sound and Salvaged hold their theorems
--   Configuration   src/configuration.ts: Fields (the four fields of resource_limits), File (one
--                   file, with default_tool and tool_configuration), Compose (the folds over the
--                   repositories), Load (load_configuration); theorems in Fields.Ranges,
--                   Compose.Lattice, Compose.Magnitudes, Compose.Composed, Compose.Clamped,
--                   Load.Layers and Load.Limits
--   SessionCommit   src/branch/session_commit.ts: StreamApply has the variables of
--                   stream_apply_from_sandbox as the record Children and one step for each event;
--                   FanOut has the functions from commit_session_to_branch to
--                   record_extraction_outcome, in a monad of calls that may throw (FanOut.Effects);
--                   Basenames has disambiguate_repository_basenames
--   BranchApply     src/branch/apply.ts: Choice (resolve_apply_repository), Pick (the cherry-picks),
--                   Merge (the merges and apply_patchlab_branch), with list_session_commits of
--                   src/branch/session_metadata.ts and detect_submodules of
--                   src/branch/predicates.ts; theorems in Candidates, Parted, Reported and Sessions
--   BranchDelete    src/branch/delete.ts: a run in one repository over the answers of git (Git), with
--                   the actions it takes; theorems in Gate, Unapplied and Outcomes
--   SafeFilesystem  src/safe_filesystem.ts: the files, sleeps and warnings are the record Disk;
--                   theorems in Atomic and Retries
--   DefaultTool     src/tools/default_tool.ts, src/tools/default_tool_preference.ts and
--                   src/tools/default_tool_trust.ts; theorems in Consent and Remembered
--   PathContainment src/path_containment.ts; theorem in Within, over Canonical and Order
--   OverridesMerge  src/overrides_merge.ts, with the types of src/detect/types.ts and
--                   src/overrides.ts
--   Overrides       src/overrides.ts: the validation of .patchlab.json, the discovery of its sources;
--                   theorem in Shape
--   Detection       src/detect/pipeline.ts and the merging helpers of src/detect/helpers.ts
--   Cgroups         src/cgroups.ts: the module's two variables are the record Process
--   PhpVersion      src/languages/php_version.ts; theorems in Constraint, Highest and Image, what a
--                   constraint of several terms means in Terms
-- A name in CamelCase or snake_case here is that of the source, in the spelling of this language. Each
-- module has its Tests, with runs on concrete inputs and the theorems applied.
--
-- Bounds. Every loop of the code here runs over a list or a text and is structural recursion, so
-- that no fuel is needed, except in Common.Decimal, where the digits of n are computed with fuel n +
-- 1, which is enough since each step divides by ten, and in SafeFilesystem, where the attempts of
-- the renaming count down from the source's own limit of 5. A number that JSON or YAML gives is told
-- apart by its sign, by whether it is an integer and by whether it exceeds 2^53; a larger one is
-- kept as it is printed. Numbers are natural numbers; the code's are exact below 2^53, and the
-- values it compares are taken to lie below that. Numerals with a fraction or an exponent are compared
-- exactly, where the code compares the nearest doubles.
--
-- Collaborators. The container runtime, git, the file system, the user's confirmation, node:os and
-- the logger are not modelled: their answers are arguments (records of answers such as
-- RepositoryHost and Host), which may be any values and any errors, and messages are collected in
-- lists. Lower case is that of ASCII.
--
-- Not modelled: the archive, the other operations on branches, the lifecycle of sandboxes, the
-- single detectors, the tools and their access to the host, the local model proxy and the command
-- line. Of src/branch/session_commit.ts and src/configuration.ts the wording of messages, of
-- src/manifest.ts the text of the file and the atomic write. A legacy field of a manifest that is
-- not of its declared type ends in the error unchecked_cast, which the source does not have: it uses
-- the value as it is.
pub mod Common
pub mod ResourceLimits
pub mod BranchApply
pub mod BranchDelete
pub mod SafeFilesystem
pub mod Configuration
pub mod DiffRewrite
pub mod Json
pub mod JsonValidators
pub mod Manifest
pub mod NodePath
pub mod SessionCommit
pub mod PathContainment
pub mod Overrides
pub mod OverridesMerge
pub mod Cgroups
pub mod PhpVersion
pub mod DefaultTool
pub mod Detection
