-- ===== src/Store/Stuck.antt =====
-- That no job stays in work for ever: `reclaim_expired` of
-- src/local_transcription_service/queue/store.py after a history.
use local_transcription_serv.Prelude.{
  ℕ, ◌+◌, ◌<◌, String, Bool, true, false, ◌&&◌, Option, some, List, [], ◌∷◌, ◌≡◌, refl, ◌∙◌, ap,
  All, All-append, arith, text_lt, is_lt, Bool-cases, inl, inr,
}
use local_transcription_serv.Models.{Calendar, IsLawful, Row, at_utc, iso_text, aware, microseconds}
use local_transcription_serv.Models.Status.{is_active}
use local_transcription_serv.Store.Table.{Db, update_rows}
use local_transcription_serv.Store.Invariant.{All-update_rows}
use local_transcription_serv.Store.Transitions.{
  update_one, mark_processing, mark_done, mark_failed, defer_retry, ack_update,
  update_transcript_path, reclaim_expired, may_reclaim, reclaimed, expired_by, in_work,
}
use local_transcription_serv.Store.History.{
  Op, submits, claims, starts, finishes, fails, defers, acks, moves, reclaims, apply, run,
  submits_cases, claims_cases,
}

-- A lease that the operation hands out ends before a time.
abbrev pub EndsBefore : ℕ → Op → Type 0
EndsBefore now (claims at ttl token) = at + microseconds ttl < now
EndsBefore now _ = Unit {0}

-- A job that is not in work.
abbrev pub IsFree : Row → Type 0
IsFree r = is_active r.status ≡ false

module _ (c : Calendar) (now : ℕ) where
  -- A job in work has a lease that ends before the time.
  abbrev Expires : Row → Type 0
  Expires r =
      is_active r.status ≡ true
      → (t : ℕ) × (t < now) × (r.lease_expires_at ≡ some (iso_text c (at_utc t)))

  apply-Expires :
      (op : Op) → EndsBefore now op → (db : Db) → All Expires db → All Expires (apply c op db)
  unfolding apply update_one mark_processing mark_done mark_failed defer_retry ack_update
      update_transcript_path reclaim_expired
  apply-Expires (submits at token url job_id) ends db h =
      submits_cases c (All Expires) db at token url job_id h
        (λ _. All-append Expires db _ h ((λ active. cc), tt))
  apply-Expires (claims at ttl token) ends db h =
      claims_cases c (All Expires) db at ttl token h
        (λ r _. All-update_rows Expires _ _ db (λ s f v active. (_, ends, refl)) h)
  apply-Expires (starts at id token) ends db h =
      All-update_rows Expires _ _ db (λ s f v active. v (ground arith)) h
  apply-Expires (finishes at id token path) ends db h =
      All-update_rows Expires _ _ db (λ s f v active. cc) h
  apply-Expires (fails at id token error) ends db h =
      All-update_rows Expires _ _ db (λ s f v active. cc) h
  apply-Expires (defers id token at) ends db h =
      All-update_rows Expires _ _ db (λ s f v active. cc) h
  apply-Expires (acks at id) ends db h = All-update_rows Expires _ _ db (λ s f v active. v active) h
  apply-Expires (moves id path) ends db h =
      All-update_rows Expires _ _ db (λ s f v active. v active) h
  apply-Expires (reclaims at) ends db h = All-update_rows Expires _ _ db (λ s f v active. cc) h

  run-Expires :
      (ops : List Op)
      → All (EndsBefore now) ops
      → (db : Db) → All Expires db
      → All Expires (run c ops db)
  unfolding run
  run-Expires [] ends db h = h
  run-Expires (op ∷ ops) ends db h =
      run-Expires ops ends.1 (apply c op db) (apply-Expires op ends.0 db h)

  module _ (L : IsLawful c) where
    may_reclaim-Expires :
        (r : Row)
        → Expires r
        → is_active r.status ≡ true
        → may_reclaim (iso_text c (at_utc now)) r ≡ true
    unfolding text_lt iso_text aware
    may_reclaim-Expires r h active =
        let (t, early, expires) = h active in
        ap (λ (o : Option String). in_work r && expired_by (iso_text c (at_utc now)) o) expires
        ∙ ap (λ (b : Bool). in_work r && b) (ap is_lt (L.compare-iso t now))
        ∙ ground arith

    update_rows-IsFree :
        (db : Db)
        → All Expires db
        → All IsFree (update_rows (may_reclaim (iso_text c (at_utc now))) reclaimed db)
    unfolding update_rows
    update_rows-IsFree [] h = tt
    update_rows-IsFree (r ∷ db) h = (
      elim (Bool-cases (may_reclaim (iso_text c (at_utc now)) r)) [
        | inl e ↦ rw e refl
        | inr e ↦ rw e (elim (Bool-cases (is_active r.status)) [
          | inl active ↦ absurd (ground (arith, may_reclaim-Expires r h.0 active))
          | inr free ↦ free
        ])
      ],
      update_rows-IsFree db h.1,
    )

    -- With a lawful calendar, after any history that began with no job, also one that breaks off in
    -- the middle of a worker's job: at a time when every lease that was handed out has ended, one
    -- `reclaim_expired` leaves no job in work; each waits in the queue, is done or has failed.
    pub none_stuck :
        (ops : List Op)
        → All (EndsBefore now) ops
        → All IsFree (reclaim_expired c now (run c ops [])).0
    unfolding reclaim_expired
    none_stuck ops ends = update_rows-IsFree (run c ops []) (run-Expires ops ends [] tt)
