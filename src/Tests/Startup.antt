-- ===== src/Tests/Startup.antt =====
-- The theorems on the settings, the start, the token and readiness at concrete inputs.
use Prim.Native.String.{String}
use local_transcription_serv.Prelude.{
  ℕ, pos, ◌<>◌, true, false, ◌&&◌, Option, none, some, [], ◌≡◌, ◌≢◌, ◌↔◌, ◌⊎◌, refl, any, text_eq,
  if◌then◌else◌,
}
use local_transcription_serv.Stt.{Json, string, object, no_members, member}
use local_transcription_serv.Stt.Ready.{Lists}
use local_transcription_serv.Api.{Reply, success, http_exception, unhandled}
use local_transcription_serv.Api.Schemas.{HttpUrl, UrlParser}
use local_transcription_serv.Api.Health.{Probes, returncode, whisper_pipeline, ready}
use local_transcription_serv.Api.Health.Ready.{status_of, CanWrite, RunsFfmpeg, ready_iff}
use local_transcription_serv.Auth.{CompareDigest, guarded}
use local_transcription_serv.Auth.Guard.{is_ascii, is_ascii_header, IsDocumented, guarded_runs}
use local_transcription_serv.Auth.Posting.{post_jobs, Posted, post_jobs-Posted}
use local_transcription_serv.Config.{
  Settings, Parser, Environ, fields, is_accepted, get_settings, dirs,
}
use local_transcription_serv.Config.Valid.{IsValid, get_settings-IsValid}
use local_transcription_serv.App.{Platform, main}
use local_transcription_serv.App.Startup.{
  is_store, is_refusal, is_started, is_awaited, can_make, HasEngine, main_opens,
}
use local_transcription_serv.Tests.Clock.{clock}
use local_transcription_serv.Tests.Service.{gateway, client}
use local_transcription_serv.Tests.Pipeline.{pipeline}

-- A comparison as documented.
abbrev compare_digest : CompareDigest
compare_digest s t = if is_ascii s && is_ascii t then some (text_eq s t) else none

compare_digest-IsDocumented : IsDocumented compare_digest
compare_digest-IsDocumented = record {
  ascii = λ s t h k. rw (h, k) refl;
  other = λ s t h. rw h refl;
}

abbrev wrong : Option String
wrong = some "another secret"

abbrev right : Option String
right = some "a long secret token"

guarded_runs_example :
    let answer : ℕ × Reply ℕ =
      guarded compare_digest wrong "a long secret token" (λ n. (n, success 1)) 7 in
    ((wrong ≡ right) × (answer ≡ (7, success 1)))
    ⊎ ((wrong ≢ right)
        × (is_ascii_header wrong ≡ true)
        × (answer ≡ (7, http_exception 401 "UNAUTHORIZED" "Invalid or missing X-Auth-Token")))
    ⊎ ((wrong ≢ right) × (is_ascii_header wrong ≡ false) × (answer ≡ (7, unhandled)))
guarded_runs_example =
    guarded_runs compare_digest compare_digest-IsDocumented "a long secret token" refl wrong
      (λ n. (n, success 1)) 7

abbrev parse_url : Json → Option HttpUrl
parse_url (string s) = some (record { text = s; host = some "youtu.be" })
parse_url _ = none

abbrev urls : UrlParser
urls = record { http_url = parse_url; lower = λ s. s }

abbrev body : Json
body = object (member "video_url" (string "https://youtu.be/a") no_members)

post_jobs-Posted_example :
    Posted clock urls 3 "c" right "a long secret token" body []
      (post_jobs clock urls 3 "c" compare_digest right "a long secret token" body [])
post_jobs-Posted_example =
    post_jobs-Posted clock urls compare_digest compare_digest-IsDocumented "a long secret token"
      refl 3 "c" right body []

abbrev parser : Parser
parser = record {
  int_of_text = λ s. some (pos 8);
  resolve = λ s. some s;
  default_data_dir = "data";
  join = λ dir name. dir <> "/" <> name;
}

abbrev environ : Environ
environ name =
    if text_eq name "LTS_AUTH_TOKEN"
    then some "a long secret token"
    else (if text_eq name "LTS_STT_API_KEY"
        then some "key"
        else (if text_eq name "LTS_WORKER_COUNT" then some "8" else none))

abbrev settings : Settings
settings = record {
  bind_host = "192.168.0.99";
  bind_port = pos 8766;
  auth_token = "a long secret token";
  data_dir = "data";
  lease_ttl_seconds = pos 600;
  reclaim_interval_seconds = pos 30;
  max_attempts = pos 2;
  retry_backoff_seconds = pos 30;
  worker_count = pos 8;
  stt_engine = "openai";
  stt_base_url = "http://192.168.0.99:4000/v1";
  stt_api_key = "key";
  stt_model = "whisper-large-v3-turbo";
}

loaded : get_settings parser environ ≡ some settings
unfolding get_settings text_eq fields is_accepted
loaded = refl

get_settings-IsValid_example : IsValid settings
get_settings-IsValid_example = get_settings-IsValid parser environ {s = settings} loaded

abbrev platform : Platform
platform = record {
  parser = parser;
  rstrip = λ s. s;
  stem = λ s. s;
  repr = λ s. s;
  gateway = λ base_url api_key. gateway;
  meanwhile = λ cache. cache;
  venv_dir = "venv/bin";
  exists = λ path. false;
  mkdir = λ path. none;
  init = none;
  serve = none;
}

main_opens_example :
    let actions = (main platform environ).0 in
    let made = can_make platform (dirs parser settings) in
    ((any is_store actions ≡ true) ↔ ((made ≡ true) × HasEngine platform environ settings))
    × ((any is_refusal actions ≡ true) ↔ ((made ≡ true) × ¬ HasEngine platform environ settings))
    × (any is_started actions ≡ any is_awaited actions)
main_opens_example = main_opens platform environ {s = settings} loaded

abbrev probes : Probes
probes = record {
  connects = true;
  execute = λ sql. true;
  which = λ name. some name;
  ffmpeg_version = returncode (pos 0);
  ffmpeg_first = true;
}

ready_iff_example :
    (status_of (ready probes (some (whisper_pipeline pipeline)) settings) ≡ 200)
    ↔ (CanWrite probes × RunsFfmpeg probes × Lists gateway client.readiness_timeout_s client.model)
ready_iff_example = ready_iff probes settings pipeline gateway client (λ cache. cache) refl
