-- ===== src/Pipeline/Whisper.antt =====
-- `WhisperPipeline`: src/local_transcription_service/pipeline/whisper_pipeline.py. The log is the
-- list of its stage events, the last one first; `elapsed` is the rounded difference of two readings
-- of the clock.
use local_transcription_serv.Prelude.{String, List, ◌∷◌}
use local_transcription_serv.Pipeline.{Result, ok, raises}
use local_transcription_serv.Pipeline.Process.{Machine, Cache, Stage}
use local_transcription_serv.Pipeline.Stages.{RealPipeline, fetch, condition, recognise, cleaned}

pub data StageEvent : Type 0 where
  stage_started : (stage job_id : String) → StageEvent
  stage_finished : (stage job_id duration_s : String) → StageEvent

pub record Trace : Type 0 where
  pub cache : Cache
  pub log : List StageEvent

abbrev pub Logged : Type 0 → Type 0
Logged A = Trace → Trace × Result A

-- The statements after one that has come to an end: an exception skips them.
abbrev pub continue : {A B : Type 0} → (A → Logged B) → Trace × Result A → Trace × Result B
continue f (trace, ok a) = f a trace
continue f (trace, raises exc) = (trace, raises exc)

infixl 5 ◌>>=◌
abbrev pub ◌>>=◌ : {A B : Type 0} → Logged A → (A → Logged B) → Logged B
◌>>=◌ step f trace = continue f (step trace)

abbrev pub quietly : {A : Type 0} → Stage A → Logged A
quietly stage trace =
    let (next, result) = stage trace.cache in (record trace { cache = next }, result)

abbrev pub log : StageEvent → Logged (Unit {0})
log event trace = (record trace { log = event ∷ trace.log }, ok tt)

abbrev pub returns : {A : Type 0} → A → Logged A
returns a trace = (trace, ok a)

module _ (m : Machine) (p : RealPipeline) (elapsed : String → String) where
  -- The body of the `try`.
  unfoldable pub logged_stages : String → String → Logged String
  logged_stages video_url job_id = do
    started ← log (stage_started "fetch" job_id)
    raw_name ← quietly (fetch m p video_url job_id)
    finished ← log (stage_finished "fetch" job_id (elapsed "fetch"))
    started ← log (stage_started "condition" job_id)
    wav_name ← quietly (condition m p raw_name job_id)
    finished ← log (stage_finished "condition" job_id (elapsed "condition"))
    started ← log (stage_started "stt" job_id)
    text ← quietly (recognise m p job_id)
    finished ← log (stage_finished "stt" job_id (elapsed "stt"))
    returns text

  -- `WhisperPipeline.transcribe`
  unfoldable pub whisper_transcribe : String → String → Logged String
  whisper_transcribe video_url job_id trace =
      let (next, result) = logged_stages video_url job_id trace in
      let (left, ended) = cleaned m p job_id (next.cache, result) in
      (record next { cache = left }, ended)
