-- ===== src/Worker/Keeps.antt =====
-- What an iteration of the worker keeps: `process_one` of
-- src/local_transcription_service/worker.py writes to the table by five operations of the store.
use local_transcription_serv.Prelude.{
  ℕ, ◌+◌, String, Bool, true, false, refl, Option, none, some, ◌≡◌, ◌∷◌, Option-cases, inl, inr,
  ltb, ◌&&◌, if-elim,
}
use local_transcription_serv.Models.{Calendar, Job, JobError, microseconds}
use local_transcription_serv.Pipeline.{ok, raises, Result}
use local_transcription_serv.Store.Table.{Db}
use local_transcription_serv.Store.Claim.{claim_update}
use local_transcription_serv.Store.History.{Op, claims, starts, finishes, fails, defers, apply}
use local_transcription_serv.Worker.{
  WorkerSettings, World, Surroundings, Outcome, crashed, idle, process_one, process_job,
  process_claimed, transcribe_job, deliver, handle_pipeline_failure, fail_job, read_claimed, claim,
  error_from_exception, result_path, write_text,
}
use local_transcription_serv.FileWrite.{on_write-elim}
use local_transcription_serv.Worker.Statements.{statement-elim}

-- The operations of a worker.
abbrev pub is_workers : Op → Bool
is_workers (claims now lease_ttl_seconds token) = true
is_workers (starts now job_id token) = true
is_workers (finishes now job_id token path) = true
is_workers (fails now job_id token error) = true
is_workers (defers job_id token next_retry_at) = true
is_workers _ = false

module _ (c : Calendar) (s : WorkerSettings) (e : Surroundings) (R : Db → Type 0)
    (others : (k : ℕ) (db : Db) → R db → R (e.others k db))
    (keeps : (op : Op) (db : Db) → is_workers op ≡ true → R db → R (apply c op db)) where
  abbrev Held : Outcome × World → Type 0
  Held o = R o.1.db

  next : (k : ℕ) (op : Op) (db : Db) → is_workers op ≡ true → R db → R (apply c op (e.others k db))
  next k op db h p = keeps op (e.others k db) h (others k db p)

  fail_job_keeps :
      (k : ℕ) (id token : String) (error : JobError) (w : World)
      → R w.db
      → R (fail_job c s e k id token error w).1.db
  unfolding fail_job apply
  fail_job_keeps k id token error w p =
      statement-elim e k _ _ w Held (others k w.db p)
        (next k (fails (e.clock k) id token error) w.db refl p)

  handle_pipeline_failure_keeps :
      (j : Job) (token : String) (error : JobError) (w : World)
      → R w.db
      → R (handle_pipeline_failure c s e j token error w).1.db
  unfolding handle_pipeline_failure apply
  handle_pipeline_failure_keeps j token error w p =
      let deferred =
        next 3 (defers j.job_id token (e.clock 3 + microseconds s.retry_backoff_seconds)) w.db refl
          p in
      if-elim Held (error.retryable && ltb j.attempt s.max_attempts)
        (statement-elim e 3 _ _ w Held (others 3 w.db p)
          (if-elim Held _ deferred (fail_job_keeps 4 j.job_id token error _ deferred)))
        (fail_job_keeps 4 j.job_id token error w p)

  deliver_keeps :
      (j : Job) (token text : String) (w : World) → R w.db → R (deliver c s e j token text w).1.db
  unfolding deliver apply
  deliver_keeps j token text w p =
      let written =
        next 3 (finishes (e.clock 3) j.job_id token (result_path s j.job_id)) w.db refl p in
      on_write-elim Held (e.write (result_path s j.job_id) text)
        (statement-elim e 3 _ _ (write_text (result_path s j.job_id) text w) Held (others 3 w.db p)
          (if-elim (λ (w' : World). R w'.db) _ written written))
        p (λ left. p)

  transcribe_job_keeps :
      (j : Job) (token : String) (w : World) → R w.db → R (transcribe_job c s e j token w).1.db
  unfolding transcribe_job
  transcribe_job_keeps j token w p =
      after (record w { transcribed = j.job_id ∷ w.transcribed }) p
        (e.transcribe j.video_url j.job_id)
    where
      after :
          (w' : World)
          → R w'.db
          → (r : Result String)
          → R
              (elim r as (λ _. Outcome × World) [
                | ok text ↦ deliver c s e j token text w'
                | raises exc ↦ handle_pipeline_failure c s e j token (error_from_exception exc) w'
              ]).1.db
      after w' q (ok text) = deliver_keeps j token text w' q
      after w' q (raises exc) =
          handle_pipeline_failure_keeps j token (error_from_exception exc) w' q

  process_claimed_keeps :
      (j : Job) (token : String) (w : World) → R w.db → R (process_claimed c s e j token w).1.db
  unfolding process_claimed apply
  process_claimed_keeps j token w p =
      let started = next 2 (starts (e.clock 2) j.job_id token) w.db refl p in
      statement-elim e 2 _ _ w Held (others 2 w.db p)
        (if-elim Held _ (transcribe_job_keeps j token _ started) started)

  pub process_job_keeps : (j : Job) (w : World) → R w.db → R (process_job c s e j w).1.db
  unfolding process_job
  process_job_keeps j w p = elim (Option-cases j.lease_token) [
    | inl f ↦ rw (f, process_job) p
    | inr (token, f) ↦
        rw (f, process_job)
          (if-elim Held (ltb s.max_attempts j.attempt) (fail_job_keeps 2 j.job_id token _ w p)
            (process_claimed_keeps j token w p))
  ]

  pub claim_keeps : (db : Db) → R db → R (claim c s e db).0
  unfolding claim read_claimed apply
  claim_keeps db p =
      if-elim (λ (r : Db × Option (Option Job)). R r.0) (e.refused 0) p
        (after (claim_update c (e.clock 0) s.lease_ttl_seconds e.token db)
          (keeps (claims (e.clock 0) s.lease_ttl_seconds e.token) db refl p))
    where
      after : (r : Db × Option String) → R r.0 → R (read_claimed c s e r).0
      after (db', none) q = q
      after (db', some id) q = others 1 db' q

  -- What the others keep and each of the five operations keeps, an iteration keeps.
  pub process_one_keeps : (w : World) → R w.db → R (process_one c s e w).1.db
  unfolding process_one
  process_one_keeps w p =
      after (claim c s e (e.others 0 w.db)).1 (claim_keeps (e.others 0 w.db) (others 0 w.db p))
    where
      after :
          {db' : Db} (o : Option (Option Job))
          → R db'
          → R
              (elim o as (λ _. Outcome × World) [
                | none ↦ (crashed, record w { db = db' })
                | some found ↦ elim found as (λ _. Outcome × World) [
                  | none ↦ (idle, record w { db = db' })
                  | some j ↦ process_job c s e j (record w { db = db' })
                ]
              ]).1.db
      after none q = q
      after (some none) q = q
      after (some (some j)) q = process_job_keeps j _ q
