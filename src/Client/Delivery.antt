-- ===== src/Client/Delivery.antt =====
-- From a submission to its result: `submit_job`, `get_job` and `get_result` of
-- src/local_transcription_service/api/jobs.py around an iteration `process_one` of
-- src/local_transcription_service/worker.py.
use local_transcription_serv.Prelude.{
  ℕ, ◌+◌, ◌≤◌, String, true, false, none, some, [], ◌∷◌, ◌++◌, ◌≡◌, refl, ◌∙◌, ap, subst, arith,
  Bool-cases, inl, inr, ltb, ◌&&◌, if◌then◌else◌, Option, universal_newlines,
}
use mathlib.Core.Option
use local_transcription_serv.FileWrite.{written}
use local_transcription_serv.Models.{
  Calendar, IsLawful, Job, JobError, Row, at_utc, iso_text, iso, aware, microseconds, to_row,
}
use local_transcription_serv.Models.Rows.{fixed, from_row-to_row}
use local_transcription_serv.Models.Status.{done, failed}
use local_transcription_serv.Pipeline.{Result, ok, raises}
use local_transcription_serv.Store.Table.{Db, find_row}
use local_transcription_serv.Store.Keyed.{UniqueIds}
use local_transcription_serv.Store.Stamps.{UniqueIds-append}
use local_transcription_serv.Store.Submit.{new_job, inserted}
use local_transcription_serv.Store.Queries.{get}
use local_transcription_serv.Store.Claim.{first_eligible, eligible}
use local_transcription_serv.Store.Transitions.{started}
use local_transcription_serv.Api.{
  Reply, SubmitJobResponse, success, http_exception, state_of, submit_job, get_job, get_result,
  result_of,
}
use local_transcription_serv.Api.Submission.{get_job_reads, submit_job_accepts}
use local_transcription_serv.Worker.{
  WorkerSettings, World, Surroundings, Outcome, process_one, error_from_exception, result_path,
}
use local_transcription_serv.Worker.Settles.{
  Settled, Verdict, delivers, retries, gives_up, on_answer, on_failure,
}
use local_transcription_serv.Worker.Iteration.{held, held_row, process_one_settles}

first_eligible-append :
    (now : String) (db : Db) (r : Row)
    → first_eligible now db ≡ none
    → eligible now r ≡ true
    → first_eligible now (db ++ (r ∷ [])) ≡ some r
unfolding first_eligible
first_eligible-append now [] r h e = rw e refl
first_eligible-append now (s ∷ db) r h e = ground (arith, first_eligible-append now db r)

module _ (c : Calendar) (s : WorkerSettings) (e : Surroundings) (now : ℕ) (id url : String) where
  abbrev pub submitted : Job
  submitted = new_job c now id url

  -- The job after an attempt that delivered, that is to be repeated, and that failed.
  abbrev pub delivered : Job
  delivered = record submitted {
    status = done;
    attempt = 1;
    started_at = some (at_utc (e.clock 2));
    finished_at = some (at_utc (e.clock 3));
    transcript_path = some (result_path s id);
  }

  abbrev pub deferred : Job
  deferred = record submitted {
    attempt = 1;
    started_at = some (at_utc (e.clock 2));
    next_retry_at = some (at_utc (e.clock 3 + microseconds s.retry_backoff_seconds));
  }

  abbrev pub given_up : JobError → Job
  given_up error = record submitted {
    status = failed;
    attempt = 1;
    started_at = some (at_utc (e.clock 2));
    finished_at = some (at_utc (e.clock 4));
    error = some error;
  }

  abbrev begun : Row
  begun = started c (e.clock 2) (held_row c s e submitted)

  inserted-to_row : inserted c submitted ≡ to_row c submitted
  unfolding to_row iso
  inserted-to_row = refl

  -- What the client reads of the job: its columns and a transcript.
  abbrev pub Shown : Job → Option String → World → Type 0
  Shown j transcript w =
      get_job c id w.db w.files ≡ success (record (state_of w.files j) { transcript = transcript })

  -- What the client gets after the worker has taken the job, from what the pipeline answered: the
  -- text; or the job in the queue again; or the error.
  abbrev pub Delivers : Result String → World → Type 0
  Delivers (ok text) w =
      Shown delivered (some (universal_newlines text)) w
      × (get_result c id w.db w.files ≡ success (result_path s id))
      × (w.files (result_path s id) ≡ some text)
  Delivers (raises exc) w =
      let error = error_from_exception exc in
      if error.retryable && ltb 1 s.max_attempts
      then Shown deferred none w
      else (Shown (given_up error) none w
          × (get_result c id w.db w.files ≡ http_exception 410 "JOB_FAILED" "Job failed"))

  Shown-to_row :
      IsLawful c
      → (j : Job) (w : World) → find_row id w.db ≡ some (to_row c j)
      → get_job c id w.db w.files ≡ success (state_of w.files (fixed c j))
  Shown-to_row L j w f =
      get_job_reads c id w.db w.files (to_row c j) (fixed c j) f (from_row-to_row c L j)

  get_result-to_row :
      IsLawful c
      → (j : Job) (w : World) → find_row id w.db ≡ some (to_row c j)
      → get_result c id w.db w.files ≡ result_of w.files (fixed c j)
  unfolding get_result get
  get_result-to_row L j w f = rw (get_result, f, from_row-to_row c L j) refl

  module _ (L : IsLawful c) (w : World) (o : Outcome) (w' : World) where
    failure-Delivers :
        (error : JobError)
        → Settled c s e
            (held c s e submitted)
            (held_row c s e submitted)
            w
            (o, w')
            (on_failure c s e (held c s e submitted) begun error)
        → if error.retryable && ltb 1 s.max_attempts
          then Shown deferred none w'
          else (Shown (given_up error) none w'
              × (get_result c id w'.db w'.files ≡ http_exception 410 "JOB_FAILED" "Job failed"))
    unfolding aware result_of to_row iso
    failure-Delivers error h = elim (Bool-cases (error.retryable && ltb 1 s.max_attempts)) [
      | inl b ↦
          (let settled = subst Outcomes {y = retries} (rw b refl) h in
            rw b (Shown-to_row L deferred w' settled.1))
      | inr b ↦
          (let settled = subst Outcomes {y = gives_up 4 error begun} (rw b refl) h in
            rw b (
              Shown-to_row L (given_up error) w' settled.1,
              get_result-to_row L (given_up error) w' settled.1,
            ))
    ]
      where
        Outcomes : Verdict → Type 0
        Outcomes = Settled c s e (held c s e submitted) (held_row c s e submitted) w (o, w')

    answer-Delivers :
        (answer : Result String)
        → ((text : String) → e.write (result_path s id) text ≡ written)
        → Settled c s e
            (held c s e submitted)
            (held_row c s e submitted)
            w
            (o, w')
            (on_answer c s e (held c s e submitted) begun answer)
        → Delivers answer w'
    unfolding aware result_of to_row iso
    answer-Delivers (ok text) writable h =
        let settled =
          subst (Settled c s e (held c s e submitted) (held_row c s e submitted) w (o, w'))
            {y = delivers text} (rw (writable text) refl) h in
        (
          Shown-to_row L delivered w' settled.1
              ∙ ap
                  (λ (file : Option String). success (record (state_of w'.files delivered) {
                    transcript = Option.map universal_newlines file;
                  }))
                  settled.2,
          get_result-to_row L delivered w' settled.1 ∙ rw settled.2 refl,
          settled.2,
        )
    answer-Delivers (raises exc) writable h = failure-Delivers (error_from_exception exc) h

  -- With a lawful calendar, take a table in which no two jobs share a key and none is to be
  -- claimed, and a token that names no job. If a client submits a URL under it, and then an
  -- iteration of the worker runs that nobody disturbs, the database neither, whose pipeline
  -- gives some answer and which can write the result file, then the client reads the outcome of
  -- that answer. On a text the job is done after one attempt, shows the text with its line ends
  -- as line feeds, and its result is the file that holds the text. On an error that asks for a
  -- retry, if the limit is above one attempt, it is queued until the backoff is over. On any
  -- other error it is failed with that error, and asking for its result gives a 410.
  pub submission-Delivers :
      IsLawful c
      → ((k : ℕ) (db : Db) → e.others k db ≡ db)
      → ((k : ℕ) → e.refused k ≡ false)
      → ((text : String) → e.write (result_path s id) text ≡ written)
      → 1 ≤ s.max_attempts
      → (w : World) → UniqueIds w.db
      → find_row id w.db ≡ none
      → first_eligible (iso_text c (at_utc (e.clock 0))) w.db ≡ none
      → let after = record w { db = (submit_job c now id url w.db).0 } in
        Delivers (e.transcribe url id) (process_one c s e after).1
  unfolding eligible
  submission-Delivers L quiet served writable limit w u fresh idle =
      let db = w.db ++ (inserted c submitted ∷ []) in
      let after = record w { db = db } in
      let accepted : (submit_job c now id url w.db).0 ≡ db =
        ap (λ (r : Db × Reply SubmitJobResponse). r.0)
          (submit_job_accepts c now id url w.db fresh) in
      let taken : first_eligible (iso_text c (at_utc (e.clock 0))) db ≡ some (to_row c submitted) =
        first_eligible-append _ w.db (inserted c submitted) idle refl ∙ ap some inserted-to_row in
      let settled =
        process_one_settles c s e L quiet served submitted after
          (UniqueIds-append w.db (inserted c submitted) u fresh) taken in
      let first_try : ltb s.max_attempts 1 ≡ false = ground arith in
      rw accepted (
        answer-Delivers L after _ _ (e.transcribe url id) writable (
          subst
            (Settled c s e (held c s e submitted) (held_row c s e submitted) after
              (process_one c s e after))
            {y = on_answer c s e (held c s e submitted) begun (e.transcribe url id)}
            (rw first_try refl) settled))
