-- ===== src/Worker.antt =====
-- One iteration of the worker: `Worker.process_one` of src/local_transcription_service/worker.py.
-- `process_one` awaits between its statements, and other workers, the reclaim loop and the HTTP
-- handlers use the same table meanwhile: `others k` is what they commit before its statement
-- number k, `clock k` the clock's reading there. The pipeline and the file system are arguments.
-- Logging is not modelled.
pub mod Statements
pub mod Keeps
pub mod Commits
pub mod Settles
pub mod Iteration
pub mod Loops
pub mod Calls
pub mod Attempts
pub mod Recovery
pub mod Alone
pub mod Ends
use local_transcription_serv.Prelude.{
  ℕ, ◌+◌, String, ◌<>◌, Bool, true, false, Option, none, some, List, [], ◌∷◌, ltb, ◌&&◌, text_eq,
  if◌then◌else◌,
}
use mathlib.Core.Option
use local_transcription_serv.Models.{Calendar, Job, JobError, at_utc, microseconds}
use local_transcription_serv.FileWrite.{Write, on_write}
use local_transcription_serv.Metrics.{Counts, increment}
use local_transcription_serv.Pipeline.{Exception, pipeline_error, other_error, Result, ok, raises}
use local_transcription_serv.Store.Table.{Db}
use local_transcription_serv.Store.Claim.{claim_update}
use local_transcription_serv.Store.Queries.{get}
use local_transcription_serv.Store.Transitions.{
  mark_processing, mark_done, mark_failed, defer_retry,
}

-- The settings that the worker reads.
pub record WorkerSettings : Type 0 where
  pub lease_ttl_seconds : ℕ
  pub max_attempts : ℕ
  pub retry_backoff_seconds : ℕ
  pub results_dir : String

-- What the worker changes: the table, the files, the counter (`none`: not passed), the jobs for
-- which `on_done` was called and those for which the pipeline was.
pub record World : Type 0 where
  pub db : Db
  pub files : String → Option String
  pub error_rate_counter : Option Counts
  pub completed : List String
  pub transcribed : List String

pub record Surroundings : Type 0 where
  pub clock : ℕ → ℕ
  pub others : ℕ → Db → Db
  -- whether the database raises at a statement
  pub refused : ℕ → Bool
  -- `secrets.token_urlsafe`
  pub token : String
  -- `pipeline.transcribe(video_url, job_id=…)`
  pub transcribe : String → String → Result String
  -- `str` of an int
  pub decimal : ℕ → String
  -- `mkdir` and `write_text` of a path and a text
  pub write : String → String → Write

-- `process_one` returns False (no job), True, or raises.
pub data Outcome : Type 0 where
  idle : Outcome
  processed : Outcome
  crashed : Outcome

-- `_error_from_exception`
unfoldable pub error_from_exception : Exception → JobError
error_from_exception (pipeline_error message code retryable) = record {
  code = code;
  message = some message;
  retryable = retryable;
}
error_from_exception (other_error type_name text) = record {
  code = "PIPELINE_TRANSIENT";
  message = some (type_name <> ": " <> text);
  retryable = true;
}

-- `self._error_rate_counter.increment(code)`, if there is one
abbrev pub count_failure : String → World → World
count_failure code w = record w {
  error_rate_counter = Option.map (increment code) w.error_rate_counter;
}

-- The file at a path holds a text.
abbrev pub write_text : String → String → World → World
write_text path text w = record w { files = λ p. if text_eq p path then some text else w.files p }

abbrev pub result_path : WorkerSettings → String → String
result_path s job_id = s.results_dir <> "/" <> job_id <> ".md"

-- The MAX_ATTEMPTS error, with the limit in decimal digits in its message.
abbrev pub max_attempts_error : String → JobError
max_attempts_error limit = record {
  code = "MAX_ATTEMPTS";
  message = some ("Job exceeded " <> limit <> " attempts");
  retryable = false;
}

-- An `await` on the store as statement number k, on the table as the others leave it: the database
-- refuses it, and its exception leaves the iteration; or it commits, and the iteration goes on with
-- what it returned.
unfoldable pub statement :
    Surroundings → ℕ → (Db → Db × Bool) → (World → Bool → Outcome × World) → World → Outcome × World
statement e k sql next w =
    let read = e.others k w.db in
    if e.refused k
    then (crashed, record w { db = read })
    else (let (db, changed) = sql read in next (record w { db = db }) changed)

module _ (c : Calendar) (s : WorkerSettings) (e : Surroundings) where
  -- `mark_failed`, as statement number k, and the count of the failure.
  unfoldable pub fail_job : ℕ → String → String → JobError → World → Outcome × World
  fail_job k job_id token error w =
      statement e k (mark_failed c (e.clock k) job_id token error)
        (λ after failed. (processed, count_failure error.code after)) w

  -- `_handle_pipeline_failure`
  unfoldable pub handle_pipeline_failure : Job → String → JobError → World → Outcome × World
  unfolding fail_job
  handle_pipeline_failure job token error w =
      if error.retryable && ltb job.attempt s.max_attempts
      then statement e 3
          (defer_retry c job.job_id token
            (at_utc (e.clock 3 + microseconds s.retry_backoff_seconds)))
          (λ after deferred.
            if deferred then (processed, after) else fail_job 4 job.job_id token error after)
          w
      else fail_job 4 job.job_id token error w

  -- After the pipeline has returned a text.
  unfoldable pub deliver : Job → String → String → World → Outcome × World
  deliver job token text w =
      let path = result_path s job.job_id in
      on_write (e.write path text)
        (statement e 3 (mark_done c (e.clock 3) job.job_id token path)
          (λ after done. (
            processed,
            if done then record after { completed = job.job_id ∷ after.completed } else after,
          ))
          (write_text path text w))
        (crashed, w) (λ left. (crashed, write_text path left w))

  -- The call of the pipeline and what follows it.
  unfoldable pub transcribe_job : Job → String → World → Outcome × World
  transcribe_job job token w =
      let called = record w { transcribed = job.job_id ∷ w.transcribed } in
      elim (e.transcribe job.video_url job.job_id) [
        | ok text ↦ deliver job token text called
        | raises exc ↦ handle_pipeline_failure job token (error_from_exception exc) called
      ]

  -- From `mark_processing` on.
  unfoldable pub process_claimed : Job → String → World → Outcome × World
  process_claimed job token w =
      statement e 2 (mark_processing c (e.clock 2) job.job_id token)
        (λ after moved. if moved then transcribe_job job token after else (processed, after)) w

  -- The end of `JobStore.claim`: `get` on a second connection, if a job was claimed. The outer `none`
  -- is an exception, of the database or of a row that does not parse.
  unfoldable pub read_claimed : Db × Option String → Db × Option (Option Job)
  read_claimed (written, none) = (written, some none)
  read_claimed (written, some job_id) =
      let read = e.others 1 written in (read, if e.refused 1 then none else get c job_id read)

  -- `JobStore.claim`
  unfoldable pub claim : Db → Db × Option (Option Job)
  claim db =
      if e.refused 0
      then (db, none)
      else read_claimed (claim_update c (e.clock 0) s.lease_ttl_seconds e.token db)

  -- The claimed job, with the `assert` on its lease and the test of its attempts.
  unfoldable pub process_job : Job → World → Outcome × World
  process_job job w = elim job.lease_token [
    | none ↦ (crashed, w)
    | some token ↦
        if ltb s.max_attempts job.attempt
        then fail_job 2 job.job_id token (max_attempts_error (e.decimal s.max_attempts)) w
        else process_claimed job token w
  ]

  unfoldable pub process_one : World → Outcome × World
  process_one w =
      let (db, job) = claim (e.others 0 w.db) in
      let read = record w { db = db } in
      elim job [
        | none ↦ (crashed, read)
        | some found ↦ elim found [ none ↦ (idle, read) | some j ↦ process_job j read ]
      ]
