-- ===== src/App.antt =====
-- The start of the service: src/local_transcription_service/app.py. uvicorn, the file system and
-- the store's file are the fields of `Platform`. The actions of a run are listed in their order; the
-- request handlers and the worker run during `served`. A log record is its message and its extras.
pub mod Startup
pub mod ConfigLine
use local_transcription_serv.Prelude.{
  ℤ, ℕ, String, ◌<>◌, Bool, true, false, ◌&&◌, Option, none, some, List, [], ◌∷◌, ◌++◌, text_eq,
  if◌then◌else◌,
}
use local_transcription_serv.Pipeline.{Exception, pipeline_error, other_error, Result, ok, raises}
use local_transcription_serv.Pipeline.Process.{Cache}
use local_transcription_serv.Pipeline.Engine.{SttEngine}
use local_transcription_serv.Pipeline.Stages.{RealPipeline}
use local_transcription_serv.Stt.{Gateway}
use local_transcription_serv.Stt.Engines.{litellm_engine, mock_stt}
use local_transcription_serv.Stt.Connection.{Connection, litellm_whisper}
use local_transcription_serv.Config.{
  Settings, Parser, Environ, get_settings, db_path, audio_cache_dir, dirs,
}

pub record Platform : Type 0 where
  pub parser : Parser
  -- `str.rstrip("/")`, the last part of a path without its suffix, and `repr`
  pub rstrip : String → String
  pub stem : String → String
  pub repr : String → String
  -- the gateway at a base URL with an API key, and what other jobs do to the cache meanwhile
  pub gateway : String → String → Gateway
  pub meanwhile : Cache → Cache
  -- `Path(sys.executable).parent`
  pub venv_dir : String
  pub exists : String → Bool
  -- the exception of `mkdir(parents=True, exist_ok=True)`
  pub mkdir : String → Option Exception
  -- the exceptions of `store.init()` and of `server.serve()`
  pub init : Option Exception
  pub serve : Option Exception

-- The values of the extras.
pub data LogValue : Type 0 where
  text : String → LogValue
  number : ℤ → LogValue

-- A route of a router: the method, the path, and whether it depends on `require_token`.
pub record Route : Type 0 where
  pub method : String
  pub path : String
  pub needs_token : Bool

-- `health.router` and `jobs.router`
abbrev pub health_router : List Route
health_router =
    record { method = "GET"; path = "/health"; needs_token = false }
    ∷ record { method = "GET"; path = "/ready"; needs_token = false }
    ∷ []

abbrev pub jobs_router : List Route
jobs_router =
    record { method = "POST"; path = "/jobs"; needs_token = true }
    ∷ record { method = "GET"; path = "/jobs/{job_id}"; needs_token = true }
    ∷ record { method = "GET"; path = "/jobs/{job_id}/result"; needs_token = true }
    ∷ record { method = "POST"; path = "/jobs/{job_id}/ack"; needs_token = true }
    ∷ []

-- The application with `app.state`; the store is the path of its file.
pub record FastApi : Type 0 where
  pub title : String
  pub version : String
  pub settings : Settings
  pub store : String
  pub pipeline : Option RealPipeline
  pub routes : List Route

unfoldable pub create_app : Settings → String → Option RealPipeline → FastApi
create_app settings store pipeline = record {
  title = "Local Transcription Service";
  version = "0.1.0";
  settings = settings;
  store = store;
  pipeline = pipeline;
  routes = health_router ++ jobs_router;
}

pub data Action : Type 0 where
  configured_logging : (level : String) → Action
  logged : (message : String) → List (String × LogValue) → Action
  made_dir : String → Action
  opened_store : String → Action
  started_worker : ℤ → Action
  served : FastApi → (host : String) (port : ℤ) → Action
  stopped_worker : Action
  awaited_worker : Action
  exited : ℕ → Action

abbrev pub outcome : Option Exception → Result (Unit {0})
outcome none = ok tt
outcome (some exc) = raises exc

-- The extras of `_log_config_resolved`
unfoldable pub config_fields : Settings → List (String × LogValue)
config_fields s =
    ("event", text "config_resolved")
    ∷ ("stt_engine", text s.stt_engine)
    ∷ ("stt_model", text s.stt_model)
    ∷ ("bind_host", text s.bind_host)
    ∷ ("bind_port", number s.bind_port)
    ∷ ("data_dir", text s.data_dir)
    ∷ ("lease_ttl_s", number s.lease_ttl_seconds)
    ∷ ("max_attempts", number s.max_attempts)
    ∷ ("worker_count", number s.worker_count)
    ∷ []

-- `str(exc)`
abbrev pub exception_text : Exception → String
exception_text (pipeline_error message code retryable) = message
exception_text (other_error type_name message) = message

module _ (pl : Platform) where
  -- The engine of `LiteLLMWhisperSTT(…)`.
  abbrev pub litellm_stt : Environ → Settings → SttEngine
  litellm_stt env s =
      let made = litellm_whisper pl.rstrip env s.stt_base_url s.stt_api_key s.stt_model in
      litellm_engine (pl.gateway made.base_url made.api_key) made.client pl.meanwhile

  unfoldable pub build_stt_engine : Environ → Settings → Result SttEngine
  build_stt_engine env s =
      if text_eq s.stt_engine "mock"
      then ok (mock_stt pl.stem)
      else (if text_eq s.stt_engine "openai"
          then ok (litellm_stt env s)
          else raises
              (other_error "ValueError" ("unsupported stt_engine: " <> pl.repr s.stt_engine)))

  -- `_resolve_venv_binary`
  unfoldable pub resolve_venv_binary : String → String
  resolve_venv_binary name =
      let candidate = pl.parser.join pl.venv_dir name in
      if pl.exists candidate then candidate else name

  unfoldable pub build_pipeline : Settings → SttEngine → RealPipeline
  build_pipeline s engine = record {
    stt_engine = engine;
    audio_cache_dir = audio_cache_dir pl.parser s;
    ytdlp_bin = resolve_venv_binary "yt-dlp";
    ffmpeg_bin = "ffmpeg";
  }

  -- `_startup_probe`
  unfoldable pub startup_probe : SttEngine → Bool
  startup_probe engine =
      if engine.timely
      then elim engine.is_ready [ ok ready ↦ ready | raises exc ↦ false ]
      else false

  -- The message of the probe's log line when it fails; the text of a TimeoutError is empty.
  unfoldable pub probe_message : SttEngine → String
  probe_message engine =
      if engine.timely
      then elim engine.is_ready [
        | ok ready ↦ "startup aborted: STT engine not ready"
        | raises exc ↦ "startup aborted: STT readiness probe failed: " <> exception_text exc
      ]
      else "startup aborted: STT readiness probe failed: "

  -- `_run` after the probe: the worker is stopped and awaited also if `serve` raises.
  unfoldable pub run_service : Settings → RealPipeline → List Action × Result (Unit {0})
  run_service s pipeline = elim pl.init [
    | some exc ↦ (opened_store (db_path pl.parser s) ∷ [], raises exc)
    | none ↦ (
      opened_store (db_path pl.parser s)
          ∷ started_worker s.worker_count
          ∷ served (create_app s (db_path pl.parser s) (some pipeline)) s.bind_host s.bind_port
          ∷ stopped_worker
          ∷ awaited_worker
          ∷ [],
      outcome pl.serve,
    )
  ]

  -- `_run`
  unfoldable pub run : Settings → SttEngine → RealPipeline → List Action × Result (Unit {0})
  run s engine pipeline = if startup_probe engine then run_service s pipeline else (
    logged (probe_message engine) (("event", text "startup_stt_not_ready") ∷ []) ∷ exited 78 ∷ [],
    ok tt,
  )

  -- `main` from `configure_logging` on.
  unfoldable pub start : Environ → Settings → List Action × Result (Unit {0})
  start env s =
      let line = logged "config resolved" (config_fields s) in
      elim (build_stt_engine env s) [
        | raises exc ↦ (configured_logging "INFO" ∷ line ∷ [], raises exc)
        | ok engine ↦
            let (actions, result) = run s engine (build_pipeline s engine) in
            (configured_logging "INFO" ∷ line ∷ actions, result)
      ]

  -- `ensure_dirs` for the directories that are left, and then the rest of `main`.
  unfoldable pub after_dirs :
      List String → List Action × Result (Unit {0}) → List Action × Result (Unit {0})
  after_dirs [] rest = rest
  after_dirs (d ∷ ds) rest =
      let (actions, result) = after_dirs ds rest in
      elim (pl.mkdir d) [ some exc ↦ ([], raises exc) | none ↦ (made_dir d ∷ actions, result) ]

  -- `main`
  unfoldable pub main : Environ → List Action × Result (Unit {0})
  main env = elim (get_settings pl.parser env) [
    | none ↦ ([], raises (other_error "ValidationError" ""))
    | some s ↦ after_dirs (dirs pl.parser s) (start env s)
  ]
