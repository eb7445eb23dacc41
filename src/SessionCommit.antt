-- ===== src/SessionCommit.antt =====
-- src/branch/session_commit.ts: from the diff of a sandbox to commits on the host's branches.
pub mod StreamApply
pub mod FanOut
pub mod Basenames
mod Tests
