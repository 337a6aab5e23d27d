-- ===== src/Worker/Iteration.antt =====
-- A whole undisturbed iteration, from the claim on: `process_one` of
-- src/local_transcription_service/worker.py.
use mathlib.Core.Option
use local_transcription_serv.Prelude.{
  ℕ, ◌+◌, String, Option, none, some, false, ◌≡◌, refl, ◌∙◌, ap, sym, subst, text_eq_self,
}
use local_transcription_serv.Models.{
  Calendar, IsLawful, Job, Row, at_utc, iso_text, iso, microseconds, to_row, from_row, aware,
}
use local_transcription_serv.Models.Rows.{fixed, from_row-to_row}
use local_transcription_serv.Models.Status.{claimed}
use local_transcription_serv.Store.Table.{Db, find_row, update_rows}
use local_transcription_serv.Store.Claim.{first_eligible, claimed_by, claim_update, may_claim}
use local_transcription_serv.Store.Exclusive.{Found, first_eligible-Found}
use local_transcription_serv.Store.Keyed.{
  UniqueIds, updated, find_row-update_rows, update_rows-UniqueIds,
}
use local_transcription_serv.Store.Queries.{get}
use local_transcription_serv.Worker.{
  WorkerSettings, World, Surroundings, Outcome, crashed, idle, read_claimed, claim, process_job,
  process_one,
}
use local_transcription_serv.Worker.Settles.{Settled, verdict, process_job_settles}

module _ (c : Calendar) (s : WorkerSettings) (e : Surroundings) where
  -- The job as its worker holds it.
  abbrev pub held : Job → Job
  held j = record (fixed c j) {
    status = claimed;
    lease_token = some e.token;
    lease_expires_at = some (at_utc (e.clock 0 + microseconds s.lease_ttl_seconds));
    attempt = j.attempt + 1;
  }

  abbrev pub held_row : Job → Row
  held_row j =
      claimed_by e.token (iso_text c (at_utc (e.clock 0 + microseconds s.lease_ttl_seconds)))
        (to_row c j)

  from_row-held_row : IsLawful c → (j : Job) → from_row c (held_row j) ≡ some (held j)
  unfolding to_row iso aware
  from_row-held_row L j = from_row-to_row c L (record j {
    status = claimed;
    lease_token = some e.token;
    lease_expires_at = some (at_utc (e.clock 0 + microseconds s.lease_ttl_seconds));
    attempt = j.attempt + 1;
  })

  -- The table after the claim.
  abbrev written : Job → Db → Db
  written j =
      update_rows (may_claim j.job_id)
        (claimed_by e.token (iso_text c (at_utc (e.clock 0 + microseconds s.lease_ttl_seconds))))

  claim_update_takes :
      (j : Job) (db : Db)
      → first_eligible (iso_text c (at_utc (e.clock 0))) db ≡ some (to_row c j)
      → claim_update c (e.clock 0) s.lease_ttl_seconds e.token db ≡ (written j db, some j.job_id)
  unfolding claim_update to_row
  claim_update_takes j db f = rw (claim_update, f) refl

  get-held :
      (j : Job) (db : Db)
      → find_row j.job_id db ≡ some (held_row j)
      → IsLawful c
      → get c j.job_id db ≡ some (some (held j))
  unfolding get
  get-held j db g L = rw (get, g, from_row-held_row L j) refl

  claim_takes :
      (j : Job) (db : Db)
      → first_eligible (iso_text c (at_utc (e.clock 0))) db ≡ some (to_row c j)
      → find_row j.job_id (e.others 1 (written j db)) ≡ some (held_row j)
      → IsLawful c
      → ((k : ℕ) → e.refused k ≡ false)
      → claim c s e db ≡ (e.others 1 (written j db), some (some (held j)))
  unfolding claim read_claimed
  claim_takes j db f g L served =
      rw (served 0, claim_update_takes j db f, served 1, get-held j _ g L) refl

  process_one_takes :
      (j : Job) (w : World) (db : Db)
      → claim c s e (e.others 0 w.db) ≡ (db, some (some (held j)))
      → process_one c s e w ≡ process_job c s e (held j) (record w { db = db })
  unfolding process_one
  process_one_takes j w db h =
      ap
        (λ (p : Db × Option (Option Job)). elim p.1 as (λ _. Outcome × World) [
          | none ↦ (crashed, record w { db = p.0 })
          | some found ↦ elim found as (λ _. Outcome × World) [
            | none ↦ (idle, record w { db = p.0 })
            | some k ↦ process_job c s e k (record w { db = p.0 })
          ]
        ])
        h

  find_row-written :
      (j : Job) (db : Db)
      → Found db (some (to_row c j))
      → find_row j.job_id (written j db) ≡ some (held_row j)
  unfolding to_row
  find_row-written j db found =
      let change : Row → Row =
        claimed_by e.token (iso_text c (at_utc (e.clock 0 + microseconds s.lease_ttl_seconds))) in
      find_row-update_rows (may_claim j.job_id) change (λ r. refl) j.job_id db
      ∙ ap (Option.map (updated (may_claim j.job_id) change)) found.0
      ∙ rw (text_eq_self j.job_id, found.1) refl

  -- With a lawful calendar, if no two jobs share a key, nobody else writes to the table meanwhile and
  -- the database refuses no statement, an iteration takes the job that the claim's subquery returns,
  -- with one attempt more and a lease of its own, and ends it as the verdict says: past the attempts
  -- it fails with MAX_ATTEMPTS, whatever the pipeline would answer; a text goes to the result file
  -- and the job is done and reported; a retryable error with attempts left puts the job back into the
  -- queue until the backoff is over and is not counted; any other error fails the job and is counted
  -- once; where writing the result file fails, the call raises, the job stays in processing under its
  -- lease, neither counted nor reported, and the result file is as it was if it was not opened, and
  -- else holds the part that was written. No file but the result file changes where a text is
  -- written.
  pub process_one_settles :
      IsLawful c
      → ((k : ℕ) (db : Db) → e.others k db ≡ db)
      → ((k : ℕ) → e.refused k ≡ false)
      → (j : Job) (w : World) → UniqueIds w.db
      → first_eligible (iso_text c (at_utc (e.clock 0))) w.db ≡ some (to_row c j)
      → Settled c s e
          (held j)
          (held_row j)
          w
          (process_one c s e w)
          (verdict c s e (held j) (held_row j))
  unfolding to_row
  process_one_settles L quiet served j w u f =
      let now : String = iso_text c (at_utc (e.clock 0)) in
      let db : Db = e.others 0 w.db in
      let u0 : UniqueIds db = subst UniqueIds (sym (quiet 0 w.db)) u in
      let f0 : first_eligible now db ≡ some (to_row c j) =
        ap (first_eligible now) (quiet 0 w.db) ∙ f in
      let found : Found db (some (to_row c j)) =
        subst (Found db) f0 (first_eligible-Found now db u0) in
      let read : Db = e.others 1 (written j db) in
      let there : find_row j.job_id read ≡ some (held_row j) =
        ap (find_row j.job_id) (quiet 1 (written j db)) ∙ find_row-written j db found in
      let u1 : UniqueIds read =
        subst UniqueIds (sym (quiet 1 (written j db)))
          (update_rows-UniqueIds (may_claim j.job_id) _ (λ r. refl) db u0) in
      subst (λ o. Settled c s e (held j) (held_row j) w o (verdict c s e (held j) (held_row j)))
        (sym (process_one_takes j w read (claim_takes j db f0 there L served)))
        (process_job_settles c s e quiet served (held j) e.token (record w { db = read })
          (held_row j) u1 there refl (text_eq_self e.token) refl)
