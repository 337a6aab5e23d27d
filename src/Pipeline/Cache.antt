-- ===== src/Pipeline/Cache.antt =====
-- The removal of a job's files from the audio cache: `cleanup_job_files` of
-- src/local_transcription_service/pipeline/stages.py.
use local_transcription_serv.Prelude.{
  ℕ, suc, String, ◌<>◌, Bool, ◌&&◌, none, some, List, [], ◌∷◌, starts_with, if◌then◌else◌,
}
use local_transcription_serv.Pipeline.{other_error, ok, raises}
use local_transcription_serv.Pipeline.Process.{Entry, Machine, Stage}

-- A file whose name starts with `{job_id}.`.
abbrev pub is_job_file : String → Entry → Bool
is_job_file job_id e = e.is_file && starts_with e.name (job_id <> ".")

-- The loop over the directory: the number of files removed, and the entries that stay.
unfoldable pub unlink_files : Machine → String → List Entry → ℕ × List Entry
unlink_files m job_id [] = (0, [])
unlink_files m job_id (e ∷ es) =
    let (removed, left) = unlink_files m job_id es in
    if is_job_file job_id e
    then (if m.unlink e.name then (suc removed, left) else (removed, e ∷ left))
    else (removed, e ∷ left)

-- `cleanup_job_files`
unfoldable pub cleanup_job_files : Machine → String → Stage ℕ
cleanup_job_files m job_id none = (none, ok 0)
cleanup_job_files m job_id (some es) = elim m.iterdir [
  | some (type_name, text) ↦ (some es, raises (other_error type_name text))
  | none ↦ (let (removed, left) = unlink_files m job_id es in (some left, ok removed))
]
