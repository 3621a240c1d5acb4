-- ===== src/Jobs/Status.antt =====
-- The status words of internal/server/jobs.go.
use houdry.Prelude.{String, Bool, true, false, str_eq}

-- The file may hold any text as a status; `other` holds one that is none of the constants.
pub data JobStatus : Type 0 where
  queued pending running succeeded failed : JobStatus
  other : String → JobStatus

abbrev pub is_queued : JobStatus → Bool
is_queued JobStatus.queued = true
is_queued _ = false

abbrev pub is_pending : JobStatus → Bool
is_pending JobStatus.pending = true
is_pending _ = false

abbrev pub is_running : JobStatus → Bool
is_running JobStatus.running = true
is_running _ = false

abbrev pub is_succeeded : JobStatus → Bool
is_succeeded JobStatus.succeeded = true
is_succeeded _ = false

abbrev pub is_failed : JobStatus → Bool
is_failed JobStatus.failed = true
is_failed _ = false

abbrev pub is_other : String → JobStatus → Bool
is_other s (JobStatus.other t) = str_eq t s
is_other s _ = false

-- j.Status == status
abbrev pub same_status : JobStatus → JobStatus → Bool
same_status s JobStatus.queued = is_queued s
same_status s JobStatus.pending = is_pending s
same_status s JobStatus.running = is_running s
same_status s JobStatus.succeeded = is_succeeded s
same_status s JobStatus.failed = is_failed s
same_status s (JobStatus.other t) = is_other t s
