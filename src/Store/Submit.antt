-- ===== src/Store/Submit.antt =====
-- `init` and `submit` of src/local_transcription_service/queue/store.py.
use local_transcription_serv.Prelude.{
  ℕ, String, Bool, Option, none, some, List, [], ◌∷◌, ◌++◌, text_eq, is_some, any, if◌then◌else◌,
}
use local_transcription_serv.Models.{Calendar, Job, Row, at_utc, iso_text}
use local_transcription_serv.Models.Status.{queued}
use local_transcription_serv.Store.Table.{Db, find_row}

-- The columns of `_SCHEMA`.
abbrev pub schema : List String
schema =
    "job_id" ∷ "video_url" ∷ "status" ∷ "attempt" ∷ "lease_token" ∷ "lease_expires_at"
    ∷ "next_retry_at" ∷ "created_at" ∷ "started_at" ∷ "finished_at" ∷ "transcript_path"
    ∷ "error_code" ∷ "error_message" ∷ "error_retryable" ∷ "acked_at" ∷ []

abbrev pub has_column : String → List String → Bool
has_column name = any (λ c. text_eq c name)

-- CREATE TABLE IF NOT EXISTS, from the columns before (`none`: no table)
create_table : Option (List String) → List String
create_table none = schema
create_table (some cols) = cols

add_column : String → List String → List String → List String
add_column name found cols = if has_column name found then cols else cols ++ (name ∷ [])

-- `init`: the columns of the table afterwards.
unfoldable pub init : Option (List String) → List String
unfolding add_column create_table
init table =
    let cols = create_table table in
    add_column "acked_at" cols (add_column "next_retry_at" cols cols)

-- `job_id or secrets.token_urlsafe(16)`
abbrev pub or_token : Option String → String → String
or_token none token = token
or_token (some s) token = if text_eq s "" then token else s

module _ (c : Calendar) where
  -- The Job that `submit` builds.
  abbrev pub new_job : ℕ → String → String → Job
  new_job now job_id video_url = record {
    job_id = job_id;
    video_url = video_url;
    status = queued;
    attempt = 0;
    created_at = at_utc now;
    started_at = none;
    finished_at = none;
    lease_token = none;
    lease_expires_at = none;
    next_retry_at = none;
    transcript_path = none;
    error = none;
    acked_at = none;
  }

  -- INSERT INTO jobs (job_id, video_url, status, attempt, created_at); the other columns are NULL.
  abbrev pub inserted : Job → Row
  inserted j = record {
    job_id = j.job_id;
    video_url = j.video_url;
    status = j.status;
    attempt = j.attempt;
    lease_token = none;
    lease_expires_at = none;
    next_retry_at = none;
    created_at = iso_text c j.created_at;
    started_at = none;
    finished_at = none;
    transcript_path = none;
    error_code = none;
    error_message = none;
    error_retryable = none;
    acked_at = none;
  }

  -- `submit`; `none` is the IntegrityError of a second row with the primary key.
  unfoldable pub submit : ℕ → String → String → Option String → Db → Option (Db × Job)
  submit now token video_url job_id db =
      let job = new_job now (or_token job_id token) video_url in
      if is_some (find_row job.job_id db) then none else some (db ++ (inserted job ∷ []), job)
