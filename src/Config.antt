-- ===== src/Config.antt =====
-- The settings: src/local_transcription_service/config.py. What pydantic and `pathlib` do to a text
-- are the fields of `Parser`; the process environment is a function from the upper-case names,
-- since names are case-insensitive. A path is a text.
pub mod Valid
use Prim.Native.String.{count}
use mathlib.Core.Option
use local_transcription_serv.Prelude.{
  ℤ, pos, negsuc, ℕ, String, ◌<>◌, Bool, true, false, not, ◌&&◌, Option, none, some, ◌>>=◌, List,
  [], ◌∷◌, leb, any, text_eq, if◌then◌else◌,
}

-- `Settings`
pub record Settings : Type 0 where
  pub bind_host : String
  pub bind_port : ℤ
  pub auth_token : String
  pub data_dir : String
  pub lease_ttl_seconds : ℤ
  pub reclaim_interval_seconds : ℤ
  pub max_attempts : ℤ
  pub retry_backoff_seconds : ℤ
  pub worker_count : ℤ
  pub stt_engine : String
  pub stt_base_url : String
  pub stt_api_key : String
  pub stt_model : String

pub record Parser : Type 0 where
  -- an int from a text; `none` is a validation error
  pub int_of_text : String → Option ℤ
  -- `Path(v).expanduser().resolve()`; `none` is an exception
  pub resolve : String → Option String
  -- `Path.home() / ".local-transcription"`
  pub default_data_dir : String
  -- `dir / name`
  pub join : String → String → String

abbrev pub Environ : Type 0
Environ = String → Option String

abbrev or_default : String → Option String → String
or_default default none = default
or_default default (some s) = s

-- The first alias that is set.
abbrev first_of : Option String → Option String → Option String
first_of (some s) other = some s
first_of none other = other

-- A `str` and an `int` field with a default, which is not validated.
abbrev pub int_field : Parser → Option String → ℕ → Option ℤ
int_field p none default = some (pos default)
int_field p (some s) default = p.int_of_text s

-- `Field(ge=low, le=high)`
abbrev pub in_range : ℕ → ℕ → ℤ → Bool
in_range low high (pos n) = leb low n && leb n high
in_range low high (negsuc n) = false

-- `_coerce_data_dir`; the default is left as it is.
abbrev pub data_dir_of : Parser → Option String → Option String
data_dir_of p none = some p.default_data_dir
data_dir_of p (some v) = p.resolve v

-- `Literal["openai", "mock"]`
abbrev pub is_engine : String → Bool
is_engine s = any (text_eq s) ("openai" ∷ "mock" ∷ [])

-- `_check_openai_requires_api_key`
abbrev pub has_api_key : Settings → Bool
has_api_key s = not (text_eq s.stt_engine "openai" && text_eq s.stt_api_key "")

-- The constraints on the fields, and the model's validator.
unfoldable pub is_accepted : Settings → Bool
is_accepted s =
    leb 16 (count s.auth_token)
    && (in_range 1 64 s.worker_count && (is_engine s.stt_engine && has_api_key s))

module _ (p : Parser) (env : Environ) where
  -- The fields from their variables.
  unfoldable pub fields : Option Settings
  fields = do
    bind_port ← int_field p (first_of (env "LTS_PORT") (env "BIND_PORT")) 8766
    auth_token ← env "LTS_AUTH_TOKEN"
    data_dir ← data_dir_of p (env "LTS_DATA_DIR")
    lease_ttl_seconds ← int_field p (env "LTS_LEASE_TTL_SECONDS") 600
    reclaim_interval_seconds ← int_field p (env "LTS_RECLAIM_INTERVAL_SECONDS") 30
    max_attempts ← int_field p (env "LTS_MAX_ATTEMPTS") 2
    retry_backoff_seconds ← int_field p (env "LTS_RETRY_BACKOFF_SECONDS") 30
    worker_count ← int_field p (env "LTS_WORKER_COUNT") 1
    some (record {
      bind_host = or_default "192.168.0.99" (env "LTS_BIND_HOST");
      bind_port = bind_port;
      auth_token = auth_token;
      data_dir = data_dir;
      lease_ttl_seconds = lease_ttl_seconds;
      reclaim_interval_seconds = reclaim_interval_seconds;
      max_attempts = max_attempts;
      retry_backoff_seconds = retry_backoff_seconds;
      worker_count = worker_count;
      stt_engine = or_default "openai" (env "LTS_STT_ENGINE");
      stt_base_url = or_default "http://192.168.0.99:4000/v1" (env "LTS_STT_BASE_URL");
      stt_api_key = or_default "" (env "LTS_STT_API_KEY");
      stt_model =
          or_default "whisper-large-v3-turbo" (first_of (env "LTS_MODEL") (env "STT_MODEL"));
    })

  -- `get_settings`; `none` is an exception.
  unfoldable pub get_settings : Option Settings
  get_settings = do s ← fields; if is_accepted s then some s else none

module _ (p : Parser) (s : Settings) where
  abbrev pub db_path : String
  db_path = p.join s.data_dir "jobs.db"

  abbrev pub audio_cache_dir : String
  audio_cache_dir = p.join s.data_dir "audio-cache"

  abbrev pub results_dir : String
  results_dir = p.join s.data_dir "results"

  abbrev pub trash_dir : String
  trash_dir = p.join s.data_dir "trash"

  -- The directories that `ensure_dirs` makes, in its order.
  abbrev pub dirs : List String
  dirs = s.data_dir ∷ audio_cache_dir ∷ results_dir ∷ trash_dir ∷ []
