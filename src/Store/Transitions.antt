-- ===== src/Store/Transitions.antt =====
-- The state transitions of src/local_transcription_service/queue/store.py: for each, the WHERE
-- clause, the SET clause, and the statement with `rowcount > 0` (`reclaim_expired`: the rowcount).
use mathlib.Core.Option
use local_transcription_serv.Prelude.{
  ℕ, String, Bool, true, false, Option, none, some, ◌&&◌, ◌||◌, not, ltb, text_eq, text_lt, is_some,
}
use local_transcription_serv.Models.{
  Calendar, DateTime, Job, JobError, Row, at_utc, int, iso_text, from_row,
}
use local_transcription_serv.Models.Status.{
  queued, processing, done, failed, is_claimed, is_processing, is_done,
}
use local_transcription_serv.Store.Table.{Db, column_eq, find_row, update_rows, rowcount}

-- AND lease_token = :token
abbrev pub leased_by : String → Row → Bool
leased_by token r = column_eq r.lease_token token

-- AND status IN ('processing', 'claimed')
abbrev pub in_work : Row → Bool
in_work r = is_processing r.status || is_claimed r.status

-- WHERE job_id = :job_id AND …
abbrev pub keyed : String → (Row → Bool) → Row → Bool
keyed job_id guard r = text_eq r.job_id job_id && guard r

-- An UPDATE of one job, with `cursor.rowcount > 0`.
unfoldable pub update_one : String → (Row → Bool) → (Row → Row) → Db → Db × Bool
update_one job_id guard change db =
    (update_rows (keyed job_id guard) change db, ltb 0 (rowcount (keyed job_id guard) db))

abbrev pub may_start : String → Row → Bool
may_start token r = is_claimed r.status && leased_by token r

abbrev pub may_finish : String → Row → Bool
may_finish token r = is_processing r.status && leased_by token r

abbrev pub may_fail : String → Row → Bool
may_fail token r = in_work r && leased_by token r

abbrev pub may_ack : Row → Bool
may_ack r = is_done r.status && not (is_some r.acked_at)

abbrev pub moved_to : String → Row → Row
moved_to path r = record r { transcript_path = some path }

-- WHERE status IN ('claimed', 'processing') AND lease_expires_at IS NOT NULL AND
-- lease_expires_at < ?
abbrev pub expired_by : String → Option String → Bool
expired_by now none = false
expired_by now (some t) = text_lt t now

abbrev pub may_reclaim : String → Row → Bool
may_reclaim now r = in_work r && expired_by now r.lease_expires_at

abbrev pub reclaimed : Row → Row
reclaimed r = record r { status = queued; lease_token = none; lease_expires_at = none }

module _ (c : Calendar) where
  abbrev pub iso_now : ℕ → String
  iso_now now = iso_text c (at_utc now)

  abbrev pub started : ℕ → Row → Row
  started now r = record r { status = processing; started_at = some (iso_now now) }

  unfoldable pub mark_processing : ℕ → String → String → Db → Db × Bool
  mark_processing now job_id token = update_one job_id (may_start token) (started now)

  abbrev pub finished : ℕ → String → Row → Row
  finished now path r = record r {
    status = done;
    finished_at = some (iso_now now);
    transcript_path = some path;
    lease_token = none;
    lease_expires_at = none;
  }

  unfoldable pub mark_done : ℕ → String → String → String → Db → Db × Bool
  mark_done now job_id token path = update_one job_id (may_finish token) (finished now path)

  abbrev pub failed_with : ℕ → JobError → Row → Row
  failed_with now error r = record r {
    status = failed;
    finished_at = some (iso_now now);
    error_code = some error.code;
    error_message = error.message;
    error_retryable = some (int error.retryable);
    lease_token = none;
    lease_expires_at = none;
  }

  unfoldable pub mark_failed : ℕ → String → String → JobError → Db → Db × Bool
  mark_failed now job_id token error = update_one job_id (may_fail token) (failed_with now error)

  abbrev pub deferred_to : DateTime → Row → Row
  deferred_to next_retry_at r = record r {
    status = queued;
    lease_token = none;
    lease_expires_at = none;
    next_retry_at = some (iso_text c next_retry_at);
  }

  unfoldable pub defer_retry : String → String → DateTime → Db → Db × Bool
  defer_retry job_id token next_retry_at =
      update_one job_id (may_fail token) (deferred_to next_retry_at)

  abbrev pub acked : ℕ → Row → Row
  acked now r = record r { acked_at = some (iso_now now) }

  -- The UPDATE of `mark_acked`.
  unfoldable pub ack_update : ℕ → String → Db → Db × Bool
  ack_update now job_id = update_one job_id may_ack (acked now)

  -- The whole method: `between` is what other connections commit before the job is read again, and
  -- `none` is the failure of that read (no row, or a row that does not parse).
  unfoldable pub mark_acked : ℕ → (Db → Db) → String → Db → Db × Option (Job × Bool)
  mark_acked now between job_id db =
      let (written, newly_acked) = ack_update now job_id db in
      let db' = between written in
      (db', Option.map (λ j. (j, newly_acked)) (Option.bind (find_row job_id db') (from_row c)))

  unfoldable pub reclaim_expired : ℕ → Db → Db × ℕ
  reclaim_expired now db = (
    update_rows (may_reclaim (iso_now now)) reclaimed db,
    rowcount (may_reclaim (iso_now now)) db,
  )

-- `WHERE job_id = ?` alone
abbrev pub always : Row → Bool
always r = true

unfoldable pub update_transcript_path : String → String → Db → Db × Bool
update_transcript_path job_id path = update_one job_id always (moved_to path)
