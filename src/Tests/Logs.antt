-- ===== src/Tests/Logs.antt =====
-- The theorems on the logs, and on the script that writes the OpenAPI document, at concrete inputs.
use local_transcription_serv.Prelude.{
  String, true, none, some, List, [], ◌∷◌, ◌++◌, ◌≡◌, ◌↔◌, refl, take, filter, pos, text_eq, ◌==◌,
}
use local_transcription_serv.FileWrite.{written}
use local_transcription_serv.Models.{at_utc}
use local_transcription_serv.Config.{Settings}
use local_transcription_serv.Logging.{
  LogRecord, Root, reserved_log_record_keys, is_hidden, payload, configure_logging, add_handler,
  remove_marked, remove_handler,
}
use local_transcription_serv.Logging.Payload.{lookup, keys, shown, payload-shows}
use local_transcription_serv.Logging.Handlers.{
  foreign, configure_all, configure_logging-IsIdempotent,
}
use local_transcription_serv.Prelude.{true}
use local_transcription_serv.App.{LogValue, text, number}
use local_transcription_serv.App.ConfigLine.{config_record, config_line}
use local_transcription_serv.OpenApi as OpenApi
use local_transcription_serv.OpenApi.Writing as Writing
use local_transcription_serv.Stt.{no_members, member, string, object, request_error}
use local_transcription_serv.Transcripts.{Files}
use local_transcription_serv.Tests.Clock.{clock}

-- A record with an attribute of its own, one extra and an exception.
abbrev line : LogRecord String
line = record {
  created = 3;
  levelname = "ERROR";
  name = "worker";
  message = "failed";
  exc_info = some "Traceback";
  attributes = ("msg", "failed") ∷ ("job_id", "a") ∷ ("level", "fatal") ∷ [];
}

payload-shows_example :
    (take 4 (keys (payload (λ s. s) clock line)) ≡ "ts" ∷ "level" ∷ "logger" ∷ "message" ∷ [])
    × ((key : String)
        → lookup key (payload (λ s. s) clock line)
          ≡ shown (λ s. s) reserved_log_record_keys (clock.isoformat (at_utc 3)) line key)
unfolding text_eq
payload-shows_example = payload-shows (λ s. s) clock line (refl, (refl, (refl, tt)))

abbrev root : Root
root = record { handlers = 1 ∷ 2 ∷ 3 ∷ []; marked = λ h. h == 2; level = "WARNING" }

configure_logging-IsIdempotent_example :
    let after = configure_logging "INFO" 5 (configure_all (("DEBUG", 4) ∷ []) root) in
    (after.handlers ≡ foreign root.marked root.handlers ++ (5 ∷ []))
    × (filter after.marked after.handlers ≡ 5 ∷ [])
    × (after.level ≡ "INFO")
unfolding configure_logging add_handler remove_marked remove_handler
configure_logging-IsIdempotent_example =
    configure_logging-IsIdempotent (("DEBUG", 4) ∷ []) "INFO" 5 root (refl, tt) refl

abbrev settings : Settings
settings = record {
  bind_host = "localhost";
  bind_port = pos 8766;
  auth_token = "0123456789abcdef";
  data_dir = "data";
  lease_ttl_seconds = pos 600;
  reclaim_interval_seconds = pos 30;
  max_attempts = pos 2;
  retry_backoff_seconds = pos 30;
  worker_count = pos 1;
  stt_engine = "openai";
  stt_base_url = "http://localhost/v1";
  stt_api_key = "secret";
  stt_model = "whisper";
}

abbrev standard : List (String × LogValue)
standard = ("msg", text "config resolved") ∷ ("lineno", number (pos 150)) ∷ []

config_line_example :
    payload text clock (config_record 3 standard settings)
    ≡ ("ts", text (clock.isoformat (at_utc 3)))
      ∷ ("level", text "INFO")
      ∷ ("logger", text "local_transcription_service.app")
      ∷ ("message", text "config resolved")
      ∷ ("event", text "config_resolved")
      ∷ ("stt_engine", text "openai")
      ∷ ("stt_model", text "whisper")
      ∷ ("bind_host", text "localhost")
      ∷ ("bind_port", number (pos 8766))
      ∷ ("data_dir", text "data")
      ∷ ("lease_ttl_s", number (pos 600))
      ∷ ("max_attempts", number (pos 2))
      ∷ ("worker_count", number (pos 1))
      ∷ []
unfolding is_hidden text_eq
config_line_example = config_line clock 3 standard settings (refl, (refl, tt))

abbrev script : OpenApi.Surroundings
script = record {
  get = λ url. request_error "refused";
  schema = some (member "openapi" (string "3.1.0") (member "paths" (object no_members) no_members));
  dumps = λ value. "{}";
  write = λ path text. written;
  prints = true;
}

abbrev arguments : OpenApi.Arguments
arguments = record { url = none; from_app = true; out = "docs/openapi.json" }

abbrev no_files : Files
no_files path = none

main-Ended_example :
    Writing.Ended script arguments no_files (OpenApi.main script arguments no_files)
    × (((OpenApi.main script arguments no_files).0 ≡ OpenApi.usage_error)
        ↔ (OpenApi.is_conflict arguments ≡ true))
main-Ended_example = Writing.main-Ended script arguments no_files
