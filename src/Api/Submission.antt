-- ===== src/Api/Submission.antt =====
-- What a client reads of the job that it has submitted: `submit_job` and `get_job` of
-- src/local_transcription_service/api/jobs.py.
use local_transcription_serv.Prelude.{
  ℕ, String, none, some, [], ◌∷◌, ◌++◌, ◌<>◌, ◌≡◌, refl, ◌∙◌, ap, arith, text_eq_self,
}
use local_transcription_serv.Models.{
  Calendar, IsLawful, Job, Row, at_utc, aware, iso, to_row, from_row,
}
use local_transcription_serv.Models.Rows.{from_row-to_row}
use local_transcription_serv.Models.Status.{queued}
use local_transcription_serv.Store.Table.{Db, find_row}
use local_transcription_serv.Store.Submit.{submit, new_job, inserted}
use local_transcription_serv.Store.Queries.{get}
use local_transcription_serv.Transcripts.{Files}
use local_transcription_serv.Api.{Reply, success, SubmitJobResponse, state_of, submit_job, get_job}

pub find_row-append_absent :
    (db : Db) (r : Row) → find_row r.job_id db ≡ none → find_row r.job_id (db ++ (r ∷ [])) ≡ some r
unfolding find_row
find_row-append_absent [] r h = rw (text_eq_self r.job_id) refl
find_row-append_absent (s ∷ db) r h = ground (arith, find_row-append_absent db r)

from_row-inserted :
    (c : Calendar)
    → IsLawful c
    → (now : ℕ) (id video_url : String)
    → from_row c (inserted c (new_job c now id video_url)) ≡ some (new_job c now id video_url)
unfolding to_row iso aware
from_row-inserted c L now id video_url = from_row-to_row c L (new_job c now id video_url)

pub submit_job_accepts :
    (c : Calendar) (now : ℕ) (token video_url : String) (db : Db)
    → find_row token db ≡ none
    → submit_job c now token video_url db ≡ (
      db ++ (inserted c (new_job c now token video_url) ∷ []),
      success (record { job_id = token; status = queued; poll_url = "/jobs/" <> token }),
    )
unfolding submit_job submit
submit_job_accepts c now token video_url db h = rw (submit_job, h) refl

pub get_job_reads :
    (c : Calendar) (id : String) (db : Db) (files : Files) (r : Row) (j : Job)
    → find_row id db ≡ some r
    → from_row c r ≡ some j
    → get_job c id db files ≡ success (state_of files j)
unfolding get_job get
get_job_reads c id db files r j e f = rw (get_job, e, f) refl

-- With a lawful calendar and a token that names no job yet, a submission is accepted, and the
-- client that asks for the job reads that it is queued, with its URL, no attempt and no result.
pub get_job-submit_job :
    (c : Calendar)
    → IsLawful c
    → (now : ℕ) (token video_url : String) (db : Db) (files : Files) → find_row token db ≡ none
    → ((submit_job c now token video_url db).1
        ≡ success (record { job_id = token; status = queued; poll_url = "/jobs/" <> token }))
      × (get_job c token (submit_job c now token video_url db).0 files
          ≡ success (record {
            job_id = token;
            video_url = video_url;
            status = queued;
            attempt = 0;
            created_at = at_utc now;
            started_at = none;
            finished_at = none;
            error = none;
            transcript = none;
            transcript_path = none;
            acked_at = none;
          }))
get_job-submit_job c L now token video_url db files h =
    let row = inserted c (new_job c now token video_url) in
    let accepted = submit_job_accepts c now token video_url db h in
    (
      ap (λ (r : Db × Reply SubmitJobResponse). r.1) accepted,
      ap (λ (r : Db × Reply SubmitJobResponse). get_job c token r.0 files) accepted
          ∙ get_job_reads c token (db ++ (row ∷ [])) files row (new_job c now token video_url)
              (find_row-append_absent db row h) (from_row-inserted c L now token video_url),
    )
