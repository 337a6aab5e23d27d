-- ===== src/Store/Readable.antt =====
-- The rows that the statements of src/local_transcription_service/queue/store.py leave behind, as
-- `Job.from_row` of src/local_transcription_service/models.py reads them.
use mathlib.Core.Option
use local_transcription_serv.Prelude.{
  ℕ, String, Option, none, some, List, [], ◌∷◌, ◌≡◌, refl, ◌∙◌, ap, map, All, All-append, text_eq,
}
use local_transcription_serv.Models.{
  Calendar, IsLawful, DateTime, Job, Row, at_utc, iso_text, from_iso, from_row, error_of_row,
}
use local_transcription_serv.Store.Table.{Db}
use local_transcription_serv.Store.Queries.{from_rows}
use local_transcription_serv.Store.Claim.Rank.{
  instant, IsStamp, IsStamp?, IsStamped, iso_text-IsStamp,
}
use local_transcription_serv.Store.Invariant.{All-update_rows}
use local_transcription_serv.Store.Transitions.{
  update_one, mark_processing, mark_done, mark_failed, defer_retry, ack_update,
  update_transcript_path, reclaim_expired,
}
use local_transcription_serv.Store.History.{
  Op, submits, claims, starts, finishes, fails, defers, acks, moves, reclaims, apply, run,
  submits_cases, claims_cases,
}

module _ (c : Calendar) where
  -- The service wrote every time of the row.
  pub record IsReadable (r : Row) : Type 0 where
    pub created : IsStamp c r.created_at
    pub started : IsStamp? c r.started_at
    pub finished : IsStamp? c r.finished_at
    pub lease : IsStamp? c r.lease_expires_at
    pub retry : IsStamp? c r.next_retry_at
    pub acked : IsStamp? c r.acked_at

  by_times :
      (r : Row)
      → IsStamp c r.created_at
      → IsStamp? c r.started_at
      → IsStamp? c r.finished_at
      → IsStamp? c r.lease_expires_at
      → IsStamp? c r.next_retry_at
      → IsStamp? c r.acked_at
      → IsReadable r
  by_times r created started finished lease retry acked = record {
    created = created;
    started = started;
    finished = finished;
    lease = lease;
    retry = retry;
    acked = acked;
  }

  abbrev pub time_of : String → DateTime
  time_of s = at_utc (instant c s)

  -- The job that such a row holds.
  abbrev pub job_of : Row → Job
  job_of r = record {
    job_id = r.job_id;
    video_url = r.video_url;
    status = r.status;
    attempt = r.attempt;
    created_at = time_of r.created_at;
    started_at = Option.map time_of r.started_at;
    finished_at = Option.map time_of r.finished_at;
    lease_token = r.lease_token;
    lease_expires_at = Option.map time_of r.lease_expires_at;
    next_retry_at = Option.map time_of r.next_retry_at;
    transcript_path = r.transcript_path;
    error = error_of_row r;
    acked_at = Option.map time_of r.acked_at;
  }

  pub IsReadable-IsStamped : (r : Row) → IsReadable r → IsStamped c r
  IsReadable-IsStamped r h = record { created = h.created; retry = h.retry }

  module _ (L : IsLawful c) where
    fromisoformat-IsStamp : (s : String) → IsStamp c s → c.fromisoformat s ≡ some (time_of s)
    fromisoformat-IsStamp s h = ap c.fromisoformat h ∙ L.from-iso (instant c s) _

    from_iso-IsStamp :
        (o : Option String) → IsStamp? c o → from_iso c o ≡ some (Option.map time_of o)
    unfolding from_iso
    from_iso-IsStamp none h = refl
    from_iso-IsStamp (some s) h =
        rw ((λ i. text_eq (h i) "") ∙ L.iso-nonempty (time_of s), fromisoformat-IsStamp s h) refl

    pub from_row-IsReadable : (r : Row) → IsReadable r → from_row c r ≡ some (job_of r)
    unfolding from_row
    from_row-IsReadable r h =
        rw
          (
            fromisoformat-IsStamp r.created_at h.created,
            from_iso-IsStamp r.started_at h.started,
            from_iso-IsStamp r.finished_at h.finished,
            from_iso-IsStamp r.lease_expires_at h.lease,
            from_iso-IsStamp r.next_retry_at h.retry,
            from_iso-IsStamp r.acked_at h.acked,
          )
          refl

    pub from_rows-IsReadable :
        (rows : List Row) → All IsReadable rows → from_rows c rows ≡ some (map job_of rows)
    unfolding from_rows
    from_rows-IsReadable [] h = refl
    from_rows-IsReadable (r ∷ rows) h =
        rw (from_row-IsReadable r h.0, from_rows-IsReadable rows h.1) refl

    now_text : (now : ℕ) → IsStamp c (iso_text c (at_utc now))
    now_text now = iso_text-IsStamp c L now

    apply-IsReadable : (op : Op) (db : Db) → All IsReadable db → All IsReadable (apply c op db)
    unfolding apply update_one mark_processing mark_done mark_failed defer_retry ack_update
        update_transcript_path reclaim_expired
    apply-IsReadable (submits now token url job_id) db h =
        submits_cases c (All IsReadable) db now token url job_id h
          (λ _. All-append IsReadable db _ h (by_times _ (now_text now) tt tt tt tt tt, tt))
    apply-IsReadable (claims now ttl token) db h =
        claims_cases c (All IsReadable) db now ttl token h (λ r _.
          All-update_rows IsReadable _ _ db
            (λ s f v. by_times _ v.created v.started v.finished (now_text _) v.retry v.acked) h)
    apply-IsReadable (starts now id token) db h =
        All-update_rows IsReadable _ _ db
          (λ s f v. by_times _ v.created (now_text now) v.finished v.lease v.retry v.acked) h
    apply-IsReadable (finishes now id token path) db h =
        All-update_rows IsReadable _ _ db
          (λ s f v. by_times _ v.created v.started (now_text now) tt v.retry v.acked) h
    apply-IsReadable (fails now id token error) db h =
        All-update_rows IsReadable _ _ db
          (λ s f v. by_times _ v.created v.started (now_text now) tt v.retry v.acked) h
    apply-IsReadable (defers id token at) db h =
        All-update_rows IsReadable _ _ db
          (λ s f v. by_times _ v.created v.started v.finished tt (now_text at) v.acked) h
    apply-IsReadable (acks now id) db h =
        All-update_rows IsReadable _ _ db
          (λ s f v. by_times _ v.created v.started v.finished v.lease v.retry (now_text now)) h
    apply-IsReadable (moves id path) db h =
        All-update_rows IsReadable _ _ db
          (λ s f v. by_times _ v.created v.started v.finished v.lease v.retry v.acked) h
    apply-IsReadable (reclaims now) db h =
        All-update_rows IsReadable _ _ db
          (λ s f v. by_times _ v.created v.started v.finished tt v.retry v.acked) h

    pub run-IsReadable :
        (ops : List Op) (db : Db) → All IsReadable db → All IsReadable (run c ops db)
    unfolding run
    run-IsReadable [] db h = h
    run-IsReadable (op ∷ ops) db h = run-IsReadable ops (apply c op db) (apply-IsReadable op db h)
