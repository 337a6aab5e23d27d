-- ===== src/Client/Whole.antt =====
-- The service with its pipeline: a submission of api/jobs.py, an iteration of worker.py, and
-- `WhisperPipeline.transcribe` of pipeline/whisper_pipeline.py with the engine of
-- stt/litellm_whisper.py, all under src/local_transcription_service.
use local_transcription_serv.Prelude.{
  ℕ, ◌≤◌, ◌<◌, String, false, none, some, ◌&&◌, ◌≡◌, ◌⊎◌, refl, sym, subst, arith, inl, inr,
  Bool-cases, ltb, universal_newlines,
}
use local_transcription_serv.FileWrite.{written}
use local_transcription_serv.Models.{Calendar, IsLawful, JobError, at_utc, iso_text}
use local_transcription_serv.Models.Status.{queued, done, failed}
use local_transcription_serv.Pipeline.{Result, ok, raises}
use local_transcription_serv.Pipeline.Process.{Cache, Machine}
use local_transcription_serv.Pipeline.Stages.{RealPipeline}
use local_transcription_serv.Pipeline.Whisper.{Trace, whisper_transcribe}
use local_transcription_serv.Pipeline.Logged.{whisper_transcribe-IsLogged}
use local_transcription_serv.Pipeline.Codes.{Coded, HasCode, real_transcribe_codes}
use local_transcription_serv.Stt.{Gateway, Client}
use local_transcription_serv.Stt.Engines.{litellm_engine}
use local_transcription_serv.Store.Table.{Db, find_row}
use local_transcription_serv.Store.Keyed.{UniqueIds}
use local_transcription_serv.Store.Claim.{first_eligible}
use local_transcription_serv.Api.{Reply, success, JobStateResponse, submit_job, get_job, state_of}
use local_transcription_serv.Client.Delivery.{Delivers, deferred, given_up, submission-Delivers}
use local_transcription_serv.Worker.{
  WorkerSettings, World, Surroundings, process_one, result_path, error_from_exception,
}

-- What a client reads of a job after its first attempt: its text, or that it is queued again, or an
-- error with one of the pipeline's codes.
abbrev pub Answered : WorkerSettings → Reply JobStateResponse → Type 0
Answered s (success r) =
    ((text : String) × (r.status ≡ done) × (r.transcript ≡ some text) × (r.error ≡ none))
    ⊎ (((r.status ≡ queued) × (r.attempt ≡ 1) × (1 < s.max_attempts))
        ⊎ ((error : JobError) × (r.status ≡ failed)
            × (r.error ≡ some error)
            × HasCode error
            × (r.transcript ≡ none)))
Answered s _ = ⊥

module _ (c : Calendar) (s : WorkerSettings) (e : Surroundings) (now : ℕ) (id url : String) where
  Delivers-Answered :
      (answer : Result String) (w : World)
      → Coded answer
      → Delivers c s e now id url answer w
      → Answered s (get_job c id w.db w.files)
  Delivers-Answered (ok text) w coded h = rw h.0 (inl (universal_newlines text, refl, refl, refl))
  Delivers-Answered (raises exc) w coded h =
      elim (Bool-cases ((error_from_exception exc).retryable && ltb 1 s.max_attempts)) [
        | inl b ↦
            (let shown : get_job c id w.db w.files
                  ≡ success (record (state_of w.files (deferred c s e now id url)) {
                    transcript = none;
                  }) =
                rw b at h in
              rw shown (inr (inl (refl, refl, ground arith))))
        | inr b ↦
            (let shown : get_job c id w.db w.files
                  ≡ success
                      (record (state_of w.files
                        (given_up c s e now id url (error_from_exception exc))) {
                          transcript = none;
                        }) =
                (rw b at h).0 in
              rw shown (inr (inr (error_from_exception exc, refl, refl, coded, refl))))
      ]

  module _ (m : Machine) (p : RealPipeline) (elapsed : String → String) (g : Gateway)
      (client : Client) (meanwhile : Cache → Cache) (trace : Trace) where
    whisper-Coded :
        p.stt_engine ≡ litellm_engine g client meanwhile
        → Coded (whisper_transcribe m p elapsed url id trace).1
    whisper-Coded gateway =
        subst Coded (sym (whisper_transcribe-IsLogged m p elapsed url id trace).result)
          (real_transcribe_codes m g client meanwhile p url id trace.cache gateway)

    -- Take a table in which no two jobs share a key and none is to be claimed, a token that names no
    -- job, and a worker that nobody disturbs, the database neither, that can write the result file, and whose pipeline is
    -- `WhisperPipeline` with the gateway's engine. Whatever yt-dlp, ffmpeg, the file system of the
    -- cache and the gateway do, after a submission and one iteration the client reads one of three
    -- answers: the job is done and shows its text; or it is queued again after its one attempt, which
    -- happens only if the limit is above one; or it is failed without a text, with an error whose
    -- code, together with the retry flag, is one of the pipeline's. (The calendar is lawful.)
    pub submission-Answered :
        IsLawful c
        → ((k : ℕ) (db : Db) → e.others k db ≡ db)
        → ((k : ℕ) → e.refused k ≡ false)
        → ((text : String) → e.write (result_path s id) text ≡ written)
        → 1 ≤ s.max_attempts
        → p.stt_engine ≡ litellm_engine g client meanwhile
        → e.transcribe url id ≡ (whisper_transcribe m p elapsed url id trace).1
        → (w : World) → UniqueIds w.db
        → find_row id w.db ≡ none
        → first_eligible (iso_text c (at_utc (e.clock 0))) w.db ≡ none
        → let after = (process_one c s e (record w { db = (submit_job c now id url w.db).0 })).1 in
          Answered s (get_job c id after.db after.files)
    submission-Answered L quiet served writable limit gateway pipeline w u fresh idle =
        Delivers-Answered (e.transcribe url id) _
          (subst Coded (sym pipeline) (whisper-Coded gateway))
          (submission-Delivers c s e now id url L quiet served writable limit w u fresh idle)
