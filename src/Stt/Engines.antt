-- ===== src/Stt/Engines.antt =====
-- The two engines: `LiteLLMWhisperSTT` of src/local_transcription_service/stt/litellm_whisper.py
-- and `MockSTT` of src/local_transcription_service/stt/mock.py.
use local_transcription_serv.Prelude.{String, ◌<>◌, true}
use local_transcription_serv.Pipeline.{ok}
use local_transcription_serv.Pipeline.Process.{Cache}
use local_transcription_serv.Pipeline.Engine.{SttEngine}
use local_transcription_serv.Stt.{Gateway, Client}
use local_transcription_serv.Stt

-- `meanwhile` is what other jobs do to the cache during the calls of the gateway.
abbrev pub litellm_engine : Gateway → Client → (Cache → Cache) → SttEngine
litellm_engine g client meanwhile = record {
  transcribe =
      λ wav_path language cache. (meanwhile cache, (Stt.transcribe g client wav_path language).1);
  is_ready = ok (Stt.is_ready g client);
  timely = g.timely;
}

-- `stem` is the last part of a path without its suffix.
unfoldable pub mock_stt : (String → String) → SttEngine
mock_stt stem = record {
  transcribe =
      λ wav_path language cache. (cache, ok ("mock transcript for " <> stem wav_path <> "\n"));
  is_ready = ok true;
  timely = true;
}
