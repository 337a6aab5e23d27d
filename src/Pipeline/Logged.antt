-- ===== src/Pipeline/Logged.antt =====
-- `WhisperPipeline.transcribe` of src/local_transcription_service/pipeline/whisper_pipeline.py
-- against `RealPipeline.transcribe` of pipeline/stages.py.
use local_transcription_serv.Prelude.{String, Bool, true, false, List, [], ◌∷◌, ◌++◌, ◌≡◌, refl, ap}
use local_transcription_serv.Pipeline.{Result, ok, raises}
use local_transcription_serv.Pipeline.Process.{Machine, Cache}
use local_transcription_serv.Pipeline.Stages.{
  RealPipeline, fetch, condition, recognise, run_stages, cleaned, real_transcribe,
}
use local_transcription_serv.Pipeline.Whisper.{
  StageEvent, stage_started, stage_finished, Trace, logged_stages, whisper_transcribe,
}

-- How far a call has come.
pub data Reached : Type 0 where
  fetching : Reached
  conditioning : Reached
  recognising : Reached
  finished : Reached

module _ (job_id : String) (elapsed : String → String) where
  abbrev ended : String → StageEvent
  ended stage = stage_finished stage job_id (elapsed stage)

  abbrev fetch_done : List StageEvent
  fetch_done = ended "fetch" ∷ stage_started "fetch" job_id ∷ []

  abbrev condition_done : List StageEvent
  condition_done = ended "condition" ∷ stage_started "condition" job_id ∷ fetch_done

  -- The events of a call, the last one first: each stage that it has reached has started, and all
  -- before the last have finished.
  unfoldable pub events : Reached → List StageEvent
  events fetching = stage_started "fetch" job_id ∷ []
  events conditioning = stage_started "condition" job_id ∷ fetch_done
  events recognising = stage_started "stt" job_id ∷ condition_done
  events finished = ended "stt" ∷ stage_started "stt" job_id ∷ condition_done

abbrev pub is_ok : {A : Type 0} → Result A → Bool
is_ok (ok a) = true
is_ok (raises exc) = false

abbrev pub is_finished : Reached → Bool
is_finished finished = true
is_finished _ = false

-- A call with its log, and what the same call comes to without one; `body` is what the stages come
-- to.
pub record IsLogged (job_id : String) (elapsed : String → String) (before : List StageEvent)
    (body : Result String) (plain : Cache × Result String) (logged : Trace × Result String)
    : Type 0 where
  pub cache : logged.0.cache ≡ plain.0
  pub result : logged.1 ≡ plain.1
  pub reached : Reached
  pub log : logged.0.log ≡ events job_id elapsed reached ++ before
  pub complete : is_finished reached ≡ is_ok body

module _ (m : Machine) (p : RealPipeline) (elapsed : String → String) (video_url job_id : String)
    (trace : Trace) where
  abbrev Goal : Type 0
  Goal =
      let plain = run_stages m p video_url job_id trace.cache in
      IsLogged job_id elapsed trace.log plain.1 plain
        (logged_stages m p elapsed video_url job_id trace)

  logged_stages-IsLogged : Goal
  unfolding logged_stages run_stages events
  logged_stages-IsLogged = by_fetch (fetch m p video_url job_id trace.cache) refl
    where
      by_stt :
          (raw_name wav_name : String) (fetched conditioned : Cache)
          → fetch m p video_url job_id trace.cache ≡ (fetched, ok raw_name)
          → condition m p raw_name job_id fetched ≡ (conditioned, ok wav_name)
          → (s : Cache × Result String) → recognise m p job_id conditioned ≡ s
          → Goal
      by_stt raw_name wav_name fetched conditioned e f (cache, raises exc) g =
          rw (e, f, g, run_stages, logged_stages)
            (record {
              cache = refl;
              result = refl;
              reached = recognising;
              log = refl;
              complete = refl;
            })
      by_stt raw_name wav_name fetched conditioned e f (cache, ok text) g =
          rw (e, f, g, run_stages, logged_stages)
            (record {
              cache = refl;
              result = refl;
              reached = finished;
              log = refl;
              complete = refl;
            })

      by_condition :
          (raw_name : String) (fetched : Cache)
          → fetch m p video_url job_id trace.cache ≡ (fetched, ok raw_name)
          → (c : Cache × Result String) → condition m p raw_name job_id fetched ≡ c
          → Goal
      by_condition raw_name fetched e (cache, raises exc) f =
          rw (e, f, run_stages, logged_stages)
            (record {
              cache = refl;
              result = refl;
              reached = conditioning;
              log = refl;
              complete = refl;
            })
      by_condition raw_name fetched e (cache, ok wav_name) f =
          by_stt raw_name wav_name fetched cache e f (recognise m p job_id cache) refl

      by_fetch : (f : Cache × Result String) → fetch m p video_url job_id trace.cache ≡ f → Goal
      by_fetch (cache, raises exc) e =
          rw (e, run_stages, logged_stages)
            (record {
              cache = refl;
              result = refl;
              reached = fetching;
              log = refl;
              complete = refl;
            })
      by_fetch (cache, ok raw_name) e =
          by_condition raw_name cache e (condition m p raw_name job_id cache) refl

-- `WhisperPipeline.transcribe` leaves the same cache as `RealPipeline.transcribe` and comes to the
-- same text or exception. What it logs is that each stage up to some one has started and that all
-- before that one have finished; the last stage has finished exactly if the stages come to a text.
pub whisper_transcribe-IsLogged :
    (m : Machine) (p : RealPipeline) (elapsed : String → String) (video_url job_id : String)
    (trace : Trace)
    → IsLogged job_id elapsed trace.log
        (run_stages m p video_url job_id trace.cache).1
        (real_transcribe m p video_url job_id trace.cache)
        (whisper_transcribe m p elapsed video_url job_id trace)
unfolding whisper_transcribe real_transcribe
whisper_transcribe-IsLogged m p elapsed video_url job_id trace =
    let body = logged_stages-IsLogged m p elapsed video_url job_id trace in
    let plain = run_stages m p video_url job_id trace.cache in
    let (next, result) = logged_stages m p elapsed video_url job_id trace in
    let same : cleaned m p job_id (next.cache, result) ≡ cleaned m p job_id plain =
      λ i. cleaned m p job_id (body.cache i, body.result i) in
    record {
      cache = ap (λ (q : Cache × Result String). q.0) same;
      result = ap (λ (q : Cache × Result String). q.1) same;
      reached = body.reached;
      log = body.log;
      complete = body.complete;
    }
