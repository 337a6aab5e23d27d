-- ===== src/Worker/Settles/Verdicts.antt =====
-- What an attempt of the worker in src/local_transcription_service/worker.py comes to, for the job's
-- row and for the rest of the world.
use mathlib.Core.Option
use local_transcription_serv.Prelude.{
  ℕ, ◌+◌, String, Option, none, some, ◌∷◌, ◌≡◌, ◌≢◌, ltb, ◌&&◌, if◌then◌else◌,
}
use local_transcription_serv.FileWrite.{on_write}
use local_transcription_serv.Models.{Calendar, Job, JobError, Row, at_utc, microseconds}
use local_transcription_serv.Metrics.{increment}
use local_transcription_serv.Pipeline.{ok, raises, Result}
use local_transcription_serv.Store.Table.{find_row}
use local_transcription_serv.Store.Transitions.{started, finished, failed_with, deferred_to}
use local_transcription_serv.Worker.{
  WorkerSettings, World, Surroundings, Outcome, processed, crashed, error_from_exception,
  max_attempts_error, result_path,
}

-- What an attempt comes to: a transcript, another attempt later, a failure for good, or a file
-- that could not be written, with what is left in it if it was opened.
pub data Verdict : Type 0 where
  delivers : String → Verdict
  retries : Verdict
  gives_up : ℕ → JobError → Row → Verdict
  breaks : Option String → Verdict

-- The files but for one path are as they were.
abbrev pub OtherFiles : String → World → World → Type 0
OtherFiles path w w' = (p : String) → p ≢ path → w'.files p ≡ w.files p

module _ (c : Calendar) (s : WorkerSettings) (e : Surroundings) where
  abbrev pub on_failure : Job → Row → JobError → Verdict
  on_failure j q error =
      if error.retryable && ltb j.attempt s.max_attempts then retries else gives_up 4 error q

  abbrev pub on_answer : Job → Row → Result String → Verdict
  on_answer j q (ok text) =
      on_write (e.write (result_path s j.job_id) text) (delivers text) (breaks none)
        (λ left. breaks (some left))
  on_answer j q (raises exc) = on_failure j q (error_from_exception exc)

  -- The verdict, from the number of the attempt and what the pipeline answers.
  abbrev pub verdict : Job → Row → Verdict
  verdict j r =
      if ltb s.max_attempts j.attempt
      then gives_up 2 (max_attempts_error (e.decimal s.max_attempts)) r
      else on_answer j (started c (e.clock 2) r) (e.transcribe j.video_url j.job_id)

  -- The job's row and the rest of the world after a verdict.
  abbrev pub Settled : Job → Row → World → Outcome × World → Verdict → Type 0
  Settled j r w (o, w') (delivers text) =
      (o ≡ processed)
      × (find_row j.job_id w'.db
          ≡ some (finished c (e.clock 3) (result_path s j.job_id) (started c (e.clock 2) r)))
      × (w'.files (result_path s j.job_id) ≡ some text)
      × (w'.completed ≡ j.job_id ∷ w.completed)
      × OtherFiles (result_path s j.job_id) w w'
  Settled j r w (o, w') retries =
      (o ≡ processed)
      × (find_row j.job_id w'.db
          ≡ some (
              deferred_to c (at_utc (e.clock 3 + microseconds s.retry_backoff_seconds))
                (started c (e.clock 2) r)))
      × (w'.error_rate_counter ≡ w.error_rate_counter)
  Settled j r w (o, w') (gives_up k error q) =
      (o ≡ processed)
      × (find_row j.job_id w'.db ≡ some (failed_with c (e.clock k) error q))
      × (w'.error_rate_counter ≡ Option.map (increment error.code) w.error_rate_counter)
  Settled j r w (o, w') (breaks left) =
      (o ≡ crashed)
      × (find_row j.job_id w'.db ≡ some (started c (e.clock 2) r))
      × (w'.error_rate_counter ≡ w.error_rate_counter)
      × (w'.completed ≡ w.completed)
      × (w'.files (result_path s j.job_id)
          ≡ (elim left [ none ↦ w.files (result_path s j.job_id) | some part ↦ some part ]))
      × OtherFiles (result_path s j.job_id) w w'
