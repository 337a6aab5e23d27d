-- ===== src/Worker/Calls.antt =====
-- When a round of the claim loop of src/local_transcription_service/worker.py calls the pipeline,
-- and what a claim does to the attempts.
use local_transcription_serv.Prelude.{
  ℕ, ◌+◌, ◌≤◌, String, Option, none, some, List, [], ◌∷◌, ◌≡◌, ◌⊎◌, inl, inr, refl, sym, ◌∙◌, subst,
  arith, ltb, text_eq, Bool-cases, Option-cases, if-elim, if◌then◌else◌, ◌&&◌,
}
use local_transcription_serv.Models.{Calendar, Job, JobError, Row, from_row}
use local_transcription_serv.Pipeline.{Result, ok, raises}
use local_transcription_serv.Store.Table.{Db, find_row}
use local_transcription_serv.Store.Keyed.{UniqueIds, find_row-job_id}
use local_transcription_serv.Store.Begun.{attempts}
use local_transcription_serv.Store.Queries.{get}
use local_transcription_serv.Store.Exclusive.{Claims, claim_update-Claims}
use local_transcription_serv.Store.History.{Op, run}
use local_transcription_serv.Store.Lifecycle.{run-Survives}
use local_transcription_serv.Store.Reaches.{Reaches}
use local_transcription_serv.Store.Stamps.{run-UniqueIds}
use local_transcription_serv.Worker.{
  WorkerSettings, World, Surroundings, Outcome, process_job, process_claimed, deliver,
  transcribe_job, handle_pipeline_failure, fail_job, read_claimed, claim, error_from_exception,
  result_path, write_text,
}
use local_transcription_serv.FileWrite.{on_write-elim}
use local_transcription_serv.Worker.Statements.{statement-elim}
use local_transcription_serv.Worker.Commits.{others-Reaches}

-- How often an id stands in a list.
abbrev pub calls : String → List String → ℕ
calls id [] = 0
calls id (x ∷ xs) = (if text_eq x id then 1 else 0) + calls id xs

module _ (c : Calendar) where
  pub Reaches-attempts : {x y : Db} → Reaches c x y → (id : String) → attempts id x ≤ attempts id y
  Reaches-attempts {x} {y} p id = elim (Option-cases (find_row id x)) [
    | inl e ↦ rw e (omega arith)
    | inr (r, e) ↦
        (let (t, f, g) = run-Survives c id p.history x r e in rw (e, p.committed, f) g.attempts)
  ]

  pub Reaches-UniqueIds : {x y : Db} → Reaches c x y → UniqueIds x → UniqueIds y
  Reaches-UniqueIds {x} p u = subst UniqueIds (sym p.committed) (run-UniqueIds c p.history x u)

  from_row-attempt :
      (r : Row) {j : Job} → from_row c r ≡ some j → (j.attempt ≡ r.attempt) × (j.job_id ≡ r.job_id)
  unfolding from_row
  from_row-attempt r h = ground arith

  get-attempts :
      (id : String) (db : Db) {j : Job}
      → get c id db ≡ some (some j)
      → (j.attempt ≡ attempts id db) × (j.job_id ≡ id)
  unfolding get
  get-attempts id db {j} h = elim (Option-cases (find_row id db)) [
    | inl e ↦ ground arith
    | inr (r, e) ↦
        (let (k, key) = from_row-attempt r {j = j} (ground arith) in
          (rw e k, key ∙ find_row-job_id id db e))
  ]

-- A claimed job has one attempt more than it had, and all attempts that the table now shows.
abbrev pub Claimed : Db → Db × Option (Option Job) → Type 0
Claimed db (after, some (some j)) =
    (attempts j.job_id db + 1 ≤ j.attempt) × (j.attempt ≡ attempts j.job_id after)
Claimed db (after, _) = Unit {0}

-- Whether the pipeline was called for a job.
abbrev Called : Job → List String → List String → Type 0
Called j before after = (after ≡ before) ⊎ (after ≡ j.job_id ∷ before)

module _ (c : Calendar) (s : WorkerSettings) (e : Surroundings) where
  abbrev Uncalled : World → Outcome × World → Type 0
  Uncalled w o = o.1.transcribed ≡ w.transcribed

  fail_job-Uncalled :
      (k : ℕ) (id token : String) (error : JobError) (w : World)
      → Uncalled w (fail_job c s e k id token error w)
  unfolding fail_job
  fail_job-Uncalled k id token error w = statement-elim e k _ _ w (Uncalled w) refl refl

  handle_pipeline_failure-Uncalled :
      (j : Job) (token : String) (error : JobError) (w : World)
      → Uncalled w (handle_pipeline_failure c s e j token error w)
  unfolding handle_pipeline_failure
  handle_pipeline_failure-Uncalled j token error w =
      if-elim (Uncalled w) (error.retryable && ltb j.attempt s.max_attempts)
        (statement-elim e 3 _ _ w (Uncalled w) refl
          (if-elim (Uncalled w) _ refl (fail_job-Uncalled 4 j.job_id token error _)))
        (fail_job-Uncalled 4 j.job_id token error w)

  deliver-Uncalled :
      (j : Job) (token text : String) (w : World) → Uncalled w (deliver c s e j token text w)
  unfolding deliver
  deliver-Uncalled j token text w =
      on_write-elim (Uncalled w) (e.write (result_path s j.job_id) text)
        (statement-elim e 3 _ _ (write_text (result_path s j.job_id) text w) (Uncalled w) refl
          (if-elim (λ (w' : World). w'.transcribed ≡ w.transcribed) _ refl refl))
        refl (λ left. refl)

  transcribe_job-Called :
      (j : Job) (token : String) (w : World)
      → (transcribe_job c s e j token w).1.transcribed ≡ j.job_id ∷ w.transcribed
  unfolding transcribe_job
  transcribe_job-Called j token w =
      after (record w { transcribed = j.job_id ∷ w.transcribed })
        (e.transcribe j.video_url j.job_id)
    where
      after :
          (w' : World) (r : Result String)
          → Uncalled w' (elim r as (λ _. Outcome × World) [
            | ok text ↦ deliver c s e j token text w'
            | raises exc ↦ handle_pipeline_failure c s e j token (error_from_exception exc) w'
          ])
      after w' (ok text) = deliver-Uncalled j token text w'
      after w' (raises exc) = handle_pipeline_failure-Uncalled j token _ w'

  process_claimed-Called :
      (j : Job) (token : String) (w : World)
      → Called j w.transcribed (process_claimed c s e j token w).1.transcribed
  unfolding process_claimed
  process_claimed-Called j token w =
      statement-elim e 2 _ _ w (λ o. Called j w.transcribed o.1.transcribed) (inl refl)
        (if-elim (λ (o : Outcome × World). Called j w.transcribed o.1.transcribed) _
          (inr (transcribe_job-Called j token _)) (inl refl))

  -- The pipeline is called only for a job within its attempts.
  pub process_job-Called :
      (j : Job) (w : World)
      → let after = (process_job c s e j w).1.transcribed in
        (after ≡ w.transcribed)
        ⊎ ((j.attempt ≤ s.max_attempts) × (after ≡ j.job_id ∷ w.transcribed))
  unfolding process_job
  process_job-Called j w = elim (Option-cases j.lease_token) [
    | inl f ↦ rw (f, process_job) (inl refl)
    | inr (token, f) ↦ elim (Bool-cases (ltb s.max_attempts j.attempt)) [
      | inl b ↦ rw (f, b, process_job) (inl (fail_job-Uncalled 2 j.job_id token _ w))
      | inr b ↦ elim (process_claimed-Called j token w) [
        | inl k ↦ rw (f, b, process_job) (inl k)
        | inr k ↦ rw (f, b, process_job) (inr (ground arith, k))
      ]
    ]
  ]

  module _ (between : ℕ → List Op)
      (h : (k : ℕ) (db : Db) → e.others k db ≡ run c (between k) db) where
    read_claimed-Claimed :
        (db : Db) (r : Db × Option String)
        → Claims c (e.clock 0) s.lease_ttl_seconds e.token db r
        → Claimed db (read_claimed c s e r)
    unfolding read_claimed
    read_claimed-Claimed db (db', none) q = tt
    read_claimed-Claimed db (db', some id) (r, f, queued, g, others) =
        if-elim (λ (found : Option (Option Job)). Claimed db (e.others 1 db', found)) (e.refused 1)
          tt (found (get c id (e.others 1 db')) refl)
      where
        found :
            (o : Option (Option Job))
            → get c id (e.others 1 db') ≡ o
            → Claimed db (e.others 1 db', o)
        found none k = tt
        found (some none) k = tt
        found (some (some j)) k =
            let (attempt, same) = get-attempts c id (e.others 1 db') k in
            let later = Reaches-attempts c (others-Reaches c s e between h 1 db') id in
            let before : attempts id db' ≡ r.attempt + 1 = rw g refl in
            (rw (same, f) (omega arith), rw same attempt)

    pub claim-Claimed : (db : Db) → UniqueIds db → Claimed db (claim c s e db)
    unfolding claim
    claim-Claimed db u = if-elim (Claimed db) (e.refused 0) tt (
        read_claimed-Claimed db _
          (claim_update-Claims c (e.clock 0) s.lease_ttl_seconds e.token db u))
