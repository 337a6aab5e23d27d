-- ===== src/Pipeline/Engine.antt =====
-- The contract of the third stage: src/local_transcription_service/stt/base.py.
use local_transcription_serv.Prelude.{String, Bool, Option}
use local_transcription_serv.Pipeline.{Result}
use local_transcription_serv.Pipeline.Process.{Stage}

-- `STTEngine`: `transcribe(wav_path, language=…)`, during which other jobs may use the audio cache,
-- and `is_ready()`.
pub record SttEngine : Type 0 where
  pub transcribe : String → Option String → Stage String
  pub is_ready : Result Bool
  -- whether `is_ready()` comes to an end within five seconds
  pub timely : Bool
