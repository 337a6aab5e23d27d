-- ===== src/Api/Result.antt =====
-- When a client gets a transcript: `get_result` of src/local_transcription_service/api/jobs.py.
use local_transcription_serv.Prelude.{
  String, true, none, some, ◌≡◌, ◌↔◌, arith, Option-cases, inl, inr,
}
use local_transcription_serv.Models.{Calendar, Job}
use local_transcription_serv.Models.Status.{is_done}
use local_transcription_serv.Store.Table.{Db}
use local_transcription_serv.Store.Queries.{get}
use local_transcription_serv.Transcripts.{Files, exists}
use local_transcription_serv.Api.{success, result_of, get_result}

-- The file of a job that is done.
abbrev pub HasResult : Files → String → Job → Type 0
HasResult files path job =
    (is_done job.status ≡ true) × (job.transcript_path ≡ some path) × (exists files path ≡ true)

result_of-HasResult :
    (files : Files) (path : String) (job : Job)
    → result_of files job ≡ success path
    → HasResult files path job
unfolding result_of
result_of-HasResult files path job h = ground arith

HasResult-result_of :
    (files : Files) (path : String) (job : Job)
    → HasResult files path job
    → result_of files job ≡ success path
unfolding result_of
HasResult-result_of files path job h = ground arith

-- `get_result` sends a file exactly if the job exists, it is done, its transcript path is that
-- file's and the file is there; in every other case the answer is an error.
pub get_result_iff :
    (c : Calendar) (id : String) (db : Db) (files : Files) (path : String)
    → (get_result c id db files ≡ success path)
      ↔ ((job : Job) × (get c id db ≡ some (some job)) × HasResult files path job)
unfolding get_result
get_result_iff c id db files path = (there, back)
  where
    back :
        (job : Job) × (get c id db ≡ some (some job)) × HasResult files path job
        → get_result c id db files ≡ success path
    back (job, e, h) = rw (get_result, e) (HasResult-result_of files path job h)

    there :
        get_result c id db files ≡ success path
        → (job : Job) × (get c id db ≡ some (some job)) × HasResult files path job
    there h = elim (Option-cases (get c id db)) [
      | inl e ↦ absurd (ground arith)
      | inr (none, e) ↦ absurd (ground arith)
      | inr (some job, e) ↦ (job, e, result_of-HasResult files path job (ground arith))
    ]
