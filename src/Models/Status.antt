-- ===== src/Models/Status.antt =====
-- `JobStatus` of src/local_transcription_service/models.py and its three properties.
use local_transcription_serv.Prelude.{String, Bool, true, false, ◌||◌}

pub data JobStatus : Type 0 where
  queued claimed processing done failed : JobStatus

-- The member's text.
unfoldable pub value : JobStatus → String
value queued = "queued"
value claimed = "claimed"
value processing = "processing"
value done = "done"
value failed = "failed"

abbrev pub is_queued : JobStatus → Bool
is_queued queued = true
is_queued _ = false

abbrev pub is_claimed : JobStatus → Bool
is_claimed claimed = true
is_claimed _ = false

abbrev pub is_processing : JobStatus → Bool
is_processing processing = true
is_processing _ = false

abbrev pub is_done : JobStatus → Bool
is_done done = true
is_done _ = false

abbrev pub is_failed : JobStatus → Bool
is_failed failed = true
is_failed _ = false

abbrev pub is_terminal : JobStatus → Bool
is_terminal s = is_done s || is_failed s

abbrev pub is_active : JobStatus → Bool
is_active s = is_claimed s || is_processing s

abbrev pub is_reclaimable : JobStatus → Bool
is_reclaimable s = is_claimed s || is_processing s
