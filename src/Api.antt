-- ===== src/Api.antt =====
-- The HTTP handlers of the jobs: src/local_transcription_service/api/jobs.py.
-- A handler returns a response, raises an `HTTPException`, or ends in another exception, which the
-- framework answers with 500. Logging, the schemas' serialisation and the token are not modelled.
pub mod Ack
pub mod Submission
pub mod Result
pub mod Schemas
pub mod Health
use mathlib.Core.Option
use local_transcription_serv.Prelude.{
  ℕ, String, ◌<>◌, Bool, true, false, Option, none, some, ◌>>=◌, ◌&&◌, not, text_eq, is_some,
  universal_newlines, if◌then◌else◌,
}
use local_transcription_serv.Models.{Calendar, DateTime, Job, JobError}
use local_transcription_serv.Models.Status.{JobStatus, is_done, is_failed, value}
use local_transcription_serv.Store.Table.{Db}
use local_transcription_serv.Store.Submit.{submit}
use local_transcription_serv.Store.Queries.{get}
use local_transcription_serv.Store.Transitions.{ack_update, update_transcript_path}
use local_transcription_serv.Transcripts.{
  Files, FileSystem, MoveOutcome, unmoved, exists, move_to_trash,
}

pub data Reply (A : Type 0) : Type 0 where
  success : A → Reply A
  http_exception : (status_code : ℕ) (code message : String) → Reply A
  -- the framework's 422 for a body that the schema refuses
  validation_error : Reply A
  unhandled : Reply A

pub record SubmitJobResponse : Type 0 where
  pub job_id : String
  pub status : JobStatus
  pub poll_url : String

pub record JobStateResponse : Type 0 where
  pub job_id : String
  pub video_url : String
  pub status : JobStatus
  pub attempt : ℕ
  pub created_at : DateTime
  pub started_at : Option DateTime
  pub finished_at : Option DateTime
  pub error : Option JobError
  pub transcript : Option String
  pub transcript_path : Option String
  pub acked_at : Option DateTime

pub record AckResponse : Type 0 where
  pub job_id : String
  pub acked_at : DateTime
  pub already_acked : Bool
  pub transcript_moved : Bool
  pub transcript_path : Option String

abbrev pub not_found : {A : Type 0} → Reply A
not_found = http_exception 404 "NOT_FOUND" "Job not found"

-- The transcript of a done job, if its file is there, as `read_text` gives it.
abbrev pub read_transcript : Files → Job → Option String
read_transcript files job =
    if is_done job.status
    then elim job.transcript_path [
      | none ↦ none
      | some path ↦ Option.map universal_newlines (files path)
    ]
    else none

abbrev pub state_of : Files → Job → JobStateResponse
state_of files job = record {
  job_id = job.job_id;
  video_url = job.video_url;
  status = job.status;
  attempt = job.attempt;
  created_at = job.created_at;
  started_at = job.started_at;
  finished_at = job.finished_at;
  error = job.error;
  transcript = read_transcript files job;
  transcript_path = if is_done job.status then job.transcript_path else none;
  acked_at = job.acked_at;
}

-- `get_result` of a job: the path of the file that is sent.
unfoldable pub result_of : Files → Job → Reply String
result_of files job =
    if is_failed job.status
    then http_exception 410 "JOB_FAILED" "Job failed"
    else (if is_done job.status
        then elim job.transcript_path [
          | none ↦ http_exception 500 "TRANSCRIPT_MISSING" "Transcript path not set"
          | some path ↦
              if exists files path
              then success path
              else http_exception 500 "TRANSCRIPT_MISSING" "Transcript file missing on disk"
        ]
        else http_exception 404 "NOT_READY" ("Job not done (status=" <> value job.status <> ")"))

module _ (c : Calendar) where
  unfoldable pub submit_job : ℕ → String → String → Db → Db × Reply SubmitJobResponse
  submit_job now token video_url db = elim (submit c now token video_url none db) [
    | none ↦ (db, unhandled)
    | some (db', job) ↦ (
      db',
      success
          (record { job_id = job.job_id; status = job.status; poll_url = "/jobs/" <> job.job_id }),
    )
  ]

  unfoldable pub get_job : String → Db → Files → Reply JobStateResponse
  get_job job_id db files = elim (get c job_id db) [
    | none ↦ unhandled
    | some found ↦ elim found [ none ↦ not_found | some job ↦ success (state_of files job) ]
  ]

  unfoldable pub get_result : String → Db → Files → Reply String
  get_result job_id db files = elim (get c job_id db) [
    | none ↦ unhandled
    | some found ↦ elim found [ none ↦ not_found | some job ↦ result_of files job ]
  ]
