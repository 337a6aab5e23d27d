-- ===== src/Stt/Connection.antt =====
-- `LiteLLMWhisperSTT.__init__` of src/local_transcription_service/stt/litellm_whisper.py.
use local_transcription_serv.Prelude.{String, Option, none, some, text_eq, if◌then◌else◌}
use local_transcription_serv.Stt.{Client}

pub record Connection : Type 0 where
  pub base_url : String
  pub api_key : String
  pub client : Client

-- `a or b` on texts
abbrev pub either : String → String → String
either a b = if text_eq a "" then b else a

-- `os.environ.get(name, default)`
abbrev pub environ_get : (String → Option String) → String → String → String
environ_get env name default = elim (env name) [ none ↦ default | some s ↦ s ]

-- The constructor as build_stt_engine calls it, with no timeouts; `rstrip` takes the slashes off the
-- end of a text.
unfoldable pub litellm_whisper :
    (String → String) → (String → Option String) → String → String → String → Connection
litellm_whisper rstrip env base_url api_key model = record {
  base_url =
      rstrip (either base_url (environ_get env "LTS_STT_BASE_URL" "http://192.168.0.99:4000/v1"));
  api_key = api_key;
  client = record {
    model = either model (environ_get env "LTS_MODEL" "whisper-large-v3-turbo");
    timeout_s = 300;
    readiness_timeout_s = 5;
  };
}
