-- ===== src/Api/Health.antt =====
-- Readiness: src/local_transcription_service/api/health.py and `ping_writable` of queue/store.py.
-- The outcomes of SQLite, of the search on the PATH and of the ffmpeg program are the fields of
-- `Probes`. Logging and the liveness endpoint, which returns a constant, are not modelled.
pub mod Ready
use local_transcription_serv.Prelude.{
  ℤ, ℕ, String, Bool, true, false, ◌&&◌, Option, none, some, is_some, is_zero, if◌then◌else◌,
}
use local_transcription_serv.Pipeline.{other_error, Result, ok, raises, ◌>>=◌}
use local_transcription_serv.Pipeline.Engine.{SttEngine}
use local_transcription_serv.Pipeline.Stages.{RealPipeline}
use local_transcription_serv.Config.{Settings}
use local_transcription_serv.Store.Ping.{ping_writable}

-- What becomes of `ffmpeg -version` within two seconds.
pub data Version : Type 0 where
  returncode : ℤ → Version
  timeout_error : Version
  os_error : Version
  fault : (type_name text : String) → Version

pub record Probes : Type 0 where
  -- whether a connection to the database opens, and whether a statement succeeds on it
  pub connects : Bool
  pub execute : String → Bool
  -- `shutil.which`
  pub which : String → Option String
  pub ffmpeg_version : Version
  -- whether the check of ffmpeg ends before that of the engine
  pub ffmpeg_first : Bool

-- The pipelines of the service: `MockPipeline` has no attribute `engine`.
pub data Pipeline : Type 0 where
  mock_pipeline : Pipeline
  whisper_pipeline : RealPipeline → Pipeline

-- `getattr(pipeline, "engine", None)`
abbrev pub engine : Pipeline → Option SttEngine
engine mock_pipeline = none
engine (whisper_pipeline p) = some p.stt_engine

pub record ReadinessReport : Type 0 where
  pub db_writable : Bool
  pub ffmpeg_present : Bool
  pub stt_engine : String
  pub stt_model_loaded : Bool

-- `ReadinessReport.ready`
abbrev pub is_ready : ReadinessReport → Bool
is_ready r = r.db_writable && (r.ffmpeg_present && r.stt_model_loaded)

-- The reply, with the members of `to_dict`.
pub record ReadyResponse : Type 0 where
  pub status_code : ℕ
  pub ready : Bool
  pub checks : ReadinessReport

-- `_check_db_writable`
abbrev pub check_db_writable : Probes → Bool
check_db_writable p = ping_writable p.connects p.execute

abbrev pub check_version : Version → Result Bool
check_version (returncode code) = ok (is_zero code)
check_version timeout_error = ok false
check_version os_error = ok false
check_version (fault type_name text) = raises (other_error type_name text)

-- `_check_ffmpeg`
unfoldable pub check_ffmpeg : Probes → Result Bool
check_ffmpeg p = if is_some (p.which "ffmpeg") then check_version p.ffmpeg_version else ok false

-- `_check_stt_engine` without its label
unfoldable pub check_stt_engine : Option Pipeline → Result Bool
check_stt_engine none = ok false
check_stt_engine (some p) = elim (engine p) [ none ↦ ok false | some e ↦ e.is_ready ]

-- `asyncio.gather` of two checks: the exception that comes first is raised.
abbrev pub gather : {A B : Type 0} → Bool → Result A → Result B → Result (A × B)
gather first (ok a) (ok b) = ok (a, b)
gather first (ok a) (raises exc) = raises exc
gather first (raises exc) (ok b) = raises exc
gather first (raises exc) (raises other) = raises (if first then exc else other)

unfoldable pub build_readiness_report : Probes → Option Pipeline → Settings → Result ReadinessReport
build_readiness_report p pipeline settings =
    gather p.ffmpeg_first (check_ffmpeg p) (check_stt_engine pipeline) >>= (λ both. ok (record {
      db_writable = check_db_writable p;
      ffmpeg_present = both.0;
      stt_engine = settings.stt_engine;
      stt_model_loaded = both.1;
    }))

abbrev pub ready_response : ReadinessReport → ReadyResponse
ready_response r = record {
  status_code = if is_ready r then 200 else 503;
  ready = is_ready r;
  checks = r;
}

-- `GET /ready`
unfoldable pub ready : Probes → Option Pipeline → Settings → Result ReadyResponse
ready p pipeline settings =
    build_readiness_report p pipeline settings >>= (λ report. ok (ready_response report))
