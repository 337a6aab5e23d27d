-- ===== src/Store/History.antt =====
-- The operations of `JobStore` as one data type, and the table after a history of them. The
-- operations of several workers, the reclaim loop and the HTTP handlers interleave in any order.
use local_transcription_serv.Prelude.{
  ℕ, ◌+◌, String, Option, none, some, List, [], ◌∷◌, ◌++◌, ◌≡◌, inl, inr, Option-cases,
}
use local_transcription_serv.Models.{Calendar, JobError, Row, at_utc, iso_text, microseconds}
use local_transcription_serv.Store.Table.{Db, find_row, update_rows}
use local_transcription_serv.Store.Submit.{submit, new_job, inserted, or_token}
use local_transcription_serv.Store.Claim.{claim_update, first_eligible, may_claim, claimed_by}
use local_transcription_serv.Store.Transitions.{
  mark_processing, mark_done, mark_failed, defer_retry, ack_update, update_transcript_path,
  reclaim_expired,
}

pub data Op : Type 0 where
  submits : (now : ℕ) (token video_url : String) (job_id : Option String) → Op
  claims : (now lease_ttl_seconds : ℕ) (token : String) → Op
  starts : (now : ℕ) (job_id token : String) → Op
  finishes : (now : ℕ) (job_id token path : String) → Op
  fails : (now : ℕ) (job_id token : String) (error : JobError) → Op
  -- The worker passes a time in UTC.
  defers : (job_id token : String) (next_retry_at : ℕ) → Op
  acks : (now : ℕ) (job_id : String) → Op
  moves : (job_id path : String) → Op
  reclaims : (now : ℕ) → Op

module _ (c : Calendar) where
  -- The table that an operation commits. A refused INSERT commits nothing.
  unfoldable pub apply : Op → Db → Db
  apply (submits now token video_url job_id) db = elim (submit c now token video_url job_id db) [
    | none ↦ db
    | some (db', job) ↦ db'
  ]
  apply (claims now ttl token) db = (claim_update c now ttl token db).0
  apply (starts now job_id token) db = (mark_processing c now job_id token db).0
  apply (finishes now job_id token path) db = (mark_done c now job_id token path db).0
  apply (fails now job_id token error) db = (mark_failed c now job_id token error db).0
  apply (defers job_id token at) db = (defer_retry c job_id token (at_utc at) db).0
  apply (acks now job_id) db = (ack_update c now job_id db).0
  apply (moves job_id path) db = (update_transcript_path job_id path db).0
  apply (reclaims now) db = (reclaim_expired c now db).0

  unfoldable pub run : List Op → Db → Db
  run [] db = db
  run (op ∷ ops) db = run ops (apply op db)

module _ {ℓ} (c : Calendar) (P : Db → Type ℓ) (db : Db) where
  -- What holds of the table as it was, and of the table with the new row, holds after a submission.
  pub submits_cases :
      (now : ℕ) (token video_url : String) (job_id : Option String)
      → P db
      → (find_row (or_token job_id token) db ≡ none
          → P (db ++ (inserted c (new_job c now (or_token job_id token) video_url) ∷ [])))
      → P (apply c (submits now token video_url job_id) db)
  unfolding apply submit
  submits_cases now token video_url job_id old new =
      elim (Option-cases (find_row (or_token job_id token) db)) [
        | inl e ↦ rw (e, apply) (new e)
        | inr (r, e) ↦ rw (e, apply) old
      ]

  -- The same for a claim, which writes the claimed job's row alone.
  pub claims_cases :
      (now lease_ttl_seconds : ℕ) (token : String)
      → P db
      → ((r : Row)
          → first_eligible (iso_text c (at_utc now)) db ≡ some r
          → P (
              update_rows
                (may_claim r.job_id)
                (claimed_by token (iso_text c (at_utc (now + microseconds lease_ttl_seconds))))
                db))
      → P (apply c (claims now lease_ttl_seconds token) db)
  unfolding apply claim_update
  claims_cases now ttl token old new =
      elim (Option-cases (first_eligible (iso_text c (at_utc now)) db)) [
        | inl e ↦ rw (e, apply) old
        | inr (r, e) ↦ rw (e, apply) (new r e)
      ]
