-- ===== src/App/ConfigLine.antt =====
-- The line of the log that shows the settings: `_log_config_resolved` of
-- src/local_transcription_service/app.py through the formatter of
-- src/local_transcription_service/logging.py.
use local_transcription_serv.Prelude.{
  ℕ, String, true, none, List, [], ◌∷◌, ◌++◌, ◌≡◌, All, text_eq, starts_with,
}
use local_transcription_serv.Models.{Calendar, at_utc}
use local_transcription_serv.Config.{Settings}
use local_transcription_serv.Logging.{
  LogRecord, reserved_log_record_keys, is_hidden, dict_set, merge_extras, first_fields,
  payload_with, payload,
}
use local_transcription_serv.Logging.Payload.{merge_extras-hidden}
use local_transcription_serv.App.{LogValue, text, number, config_fields}

-- The record that `logger.info` makes: its own attributes, and then the extras.
abbrev pub config_record : ℕ → List (String × LogValue) → Settings → LogRecord LogValue
config_record now standard s = record {
  created = now;
  levelname = "INFO";
  name = "local_transcription_service.app";
  message = "config resolved";
  exc_info = none;
  attributes = standard ++ config_fields s;
}

-- If `logging` gives a record no attributes of its own but those that the formatter reserves or that
-- begin with an underscore, the line with the settings holds the four fields of every line, the event
-- and eight settings, and nothing else: neither the token nor the API key.
pub config_line :
    (c : Calendar) (now : ℕ) (standard : List (String × LogValue)) (s : Settings)
    → All (λ entry. is_hidden reserved_log_record_keys entry.0 ≡ true) standard
    → payload text c (config_record now standard s)
      ≡ ("ts", text (c.isoformat (at_utc now)))
        ∷ ("level", text "INFO")
        ∷ ("logger", text "local_transcription_service.app")
        ∷ ("message", text "config resolved")
        ∷ ("event", text "config_resolved")
        ∷ ("stt_engine", text s.stt_engine)
        ∷ ("stt_model", text s.stt_model)
        ∷ ("bind_host", text s.bind_host)
        ∷ ("bind_port", number s.bind_port)
        ∷ ("data_dir", text s.data_dir)
        ∷ ("lease_ttl_s", number s.lease_ttl_seconds)
        ∷ ("max_attempts", number s.max_attempts)
        ∷ ("worker_count", number s.worker_count)
        ∷ []
unfolding payload payload_with config_fields merge_extras dict_set is_hidden text_eq starts_with
config_line c now standard s hidden =
    merge_extras-hidden reserved_log_record_keys standard (config_fields s)
      (first_fields text (c.isoformat (at_utc now)) (config_record now standard s)) hidden
