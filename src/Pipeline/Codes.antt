-- ===== src/Pipeline/Codes.antt =====
-- Which error a job gets: `RealPipeline.transcribe` of
-- src/local_transcription_service/pipeline/stages.py with the engine of stt/litellm_whisper.py, and
-- `_error_from_exception` of worker.py.
use local_transcription_serv.Prelude.{
  String, ◌<>◌, true, false, none, some, ◌≡◌, inl, inr, refl, sym, subst, Option-cases,
}
use local_transcription_serv.Models.{JobError}
use local_transcription_serv.Pipeline.{pipeline_error, other_error, Result, ok, raises}
use local_transcription_serv.Pipeline.Process.{
  entries, Cache, Machine, Ran, Stage, continue, ◌>>=◌, run_subprocess,
}
use local_transcription_serv.Pipeline.Engine.{SttEngine}
use local_transcription_serv.Pipeline.Cache.{cleanup_job_files}
use local_transcription_serv.Pipeline.Stages.{
  RealPipeline, fetch, condition, recognise, run_stages, cleaned, real_transcribe, fetch_media,
  fetch_argv, condition_audio, fetch_timeout_s, condition_timeout_s,
}
use local_transcription_serv.Pipeline.Outcomes.{
  FetchOutcome, fetch_media_comes_to, ConditionOutcome, condition_audio_comes_to,
}
use local_transcription_serv.Stt.{Gateway, Client}
use local_transcription_serv.Stt.Classified.{Classified, transcribe_raises}
use local_transcription_serv.Stt.Engines.{litellm_engine}
use local_transcription_serv.Worker.{error_from_exception}

-- The codes of a job's error, with the retry flag that each one may have.
pub data HasCode (e : JobError) : Type 0 where
  fetching : e.code ≡ "FETCH_FAILED" → HasCode e
  conditioning : e.code ≡ "AUDIO_CONDITIONING_FAILED" → e.retryable ≡ false → HasCode e
  unavailable : e.code ≡ "STT_GATEWAY_UNAVAILABLE" → e.retryable ≡ true → HasCode e
  rejected : e.code ≡ "STT_BAD_REQUEST" → e.retryable ≡ false → HasCode e
  unknown_model : e.code ≡ "MODEL_NOT_PULLED" → e.retryable ≡ false → HasCode e
  transient : e.code ≡ "PIPELINE_TRANSIENT" → e.retryable ≡ true → HasCode e

abbrev pub Coded : Result String → Type 0
Coded (ok text) = Unit {0}
Coded (raises exc) = HasCode (error_from_exception exc)

other_error-HasCode :
    (type_name text : String) → HasCode (error_from_exception (other_error type_name text))
unfolding error_from_exception
other_error-HasCode type_name text = transient refl refl

FetchOutcome-Coded :
    (m : Machine) (job_id : String) (run : Ran) (cache : Cache) (r : Result String)
    → FetchOutcome m job_id run cache r
    → Coded r
unfolding error_from_exception
FetchOutcome-Coded m job_id run cache (ok text) h = tt
FetchOutcome-Coded m job_id run cache (raises (pipeline_error message code retryable)) h =
    fetching h.0
FetchOutcome-Coded m job_id run cache (raises (other_error type_name text)) h = transient refl refl

ConditionOutcome-Coded :
    (wav_name : String) (run : Ran) (cache : Cache) (r : Result String)
    → ConditionOutcome wav_name run cache r
    → Coded r
unfolding error_from_exception
ConditionOutcome-Coded wav_name run cache (ok text) h = tt
ConditionOutcome-Coded wav_name run cache (raises (pipeline_error message code retryable)) h =
    conditioning h.0 h.1
ConditionOutcome-Coded wav_name run cache (raises (other_error type_name text)) h =
    transient refl refl

Classified-Coded : (r : Result String) → Classified true r → Coded r
unfolding error_from_exception
Classified-Coded (ok text) h = tt
Classified-Coded (raises (other_error type_name text)) h = transient refl refl
Classified-Coded (raises (pipeline_error message code retryable)) (inl h) = unavailable h.0 h.1
Classified-Coded (raises (pipeline_error message code retryable)) (inr (inl h)) = rejected h.0 h.1
Classified-Coded (raises (pipeline_error message code retryable)) (inr (inr h)) =
    unknown_model h.0 h.1

continue-Coded :
    (f : String → Stage String) (ended : Cache × Result String)
    → Coded ended.1
    → ((text : String) (next : Cache) → Coded (f text next).1)
    → Coded (continue f ended).1
continue-Coded f (next, ok text) h k = k text next
continue-Coded f (next, raises exc) h k = h

cleaned-Coded :
    (m : Machine) (p : RealPipeline) (job_id : String) (stopped : Cache × Result String)
    → Coded stopped.1
    → Coded (cleaned m p job_id stopped).1
unfolding cleaned cleanup_job_files error_from_exception
cleaned-Coded m p job_id (none, result) h = h
cleaned-Coded m p job_id (some es, result) h = elim (Option-cases m.iterdir) [
  | inl e ↦ rw (e, cleanup_job_files) h
  | inr (exc, e) ↦ rw (e, cleanup_job_files) (transient refl refl)
]

fetch-Coded :
    (m : Machine) (p : RealPipeline) (video_url job_id : String) (cache : Cache)
    → Coded (fetch m p video_url job_id cache).1
unfolding fetch_media error_from_exception
fetch-Coded m p video_url job_id cache = elim (Option-cases m.mkdir) [
  | inl e ↦
      let template = m.join p.audio_cache_dir (job_id <> ".%(ext)s") in
      let argv = fetch_argv p.ytdlp_bin template video_url in
      FetchOutcome-Coded m job_id _ (run_subprocess m argv fetch_timeout_s (some (entries cache))).0
        _
        (fetch_media_comes_to m p.audio_cache_dir p.ytdlp_bin fetch_timeout_s video_url job_id cache
          e).1
  | inr ((type_name, text), e) ↦ rw (e, fetch_media) (transient refl refl)
]

-- Whatever goes wrong in the pipeline with the gateway's engine, the worker's error for the job has
-- one of six codes. Only FETCH_FAILED comes both with a retry and without; a retry is asked for
-- with STT_GATEWAY_UNAVAILABLE and PIPELINE_TRANSIENT, and never with
-- AUDIO_CONDITIONING_FAILED, STT_BAD_REQUEST and MODEL_NOT_PULLED.
pub real_transcribe_codes :
    (m : Machine) (g : Gateway) (client : Client) (meanwhile : Cache → Cache) (p : RealPipeline)
    (video_url job_id : String) (cache : Cache)
    → p.stt_engine ≡ litellm_engine g client meanwhile
    → Coded (real_transcribe m p video_url job_id cache).1
unfolding real_transcribe run_stages condition_audio
real_transcribe_codes m g client meanwhile p video_url job_id cache gateway =
    let stt : String → Stage String = λ wav_name. recognise m p job_id in
    cleaned-Coded m p job_id (run_stages m p video_url job_id cache) (
      continue-Coded (λ raw_name. condition m p raw_name job_id >>= stt)
        (fetch m p video_url job_id cache) (fetch-Coded m p video_url job_id cache)
        (λ raw_name next.
          continue-Coded stt (condition m p raw_name job_id next)
            (ConditionOutcome-Coded _ _ (condition m p raw_name job_id next).0 _
              (condition_audio_comes_to m p.audio_cache_dir p.ffmpeg_bin condition_timeout_s
                raw_name (job_id <> ".wav") next).1)
            (λ wav_name after.
              subst
                (λ (engine : SttEngine).
                  Coded
                    (engine.transcribe (m.join p.audio_cache_dir (job_id <> ".wav")) none after).1)
                (sym gateway) (Classified-Coded _ (transcribe_raises g client _ none)))))
