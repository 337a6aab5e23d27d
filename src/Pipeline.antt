-- ===== src/Pipeline.antt =====
-- The pipeline's contract: src/local_transcription_service/pipeline/base.py.
pub mod Process
pub mod Cache
pub mod Engine
pub mod Stages
pub mod Whisper
pub mod Cleaning
pub mod Outcomes
pub mod Messages
pub mod Codes
pub mod Logged
use local_transcription_serv.Prelude.{String, Bool, ◌<>◌}

-- What leaves a call by `raise`: a `PipelineError`, or any other exception with the name of its
-- type and its text.
pub data Exception : Type 0 where
  pipeline_error : (message code : String) (retryable : Bool) → Exception
  other_error : (type_name text : String) → Exception

pub data Result (A : Type 0) : Type 0 where
  ok : A → Result A
  raises : Exception → Result A

-- An exception ends the statements that follow.
infixl 5 ◌>>=◌
abbrev pub ◌>>=◌ : {A B : Type 0} → Result A → (A → Result B) → Result B
ok a >>= f = f a
raises exc >>= f = raises exc

-- `MockPipeline.transcribe`
unfoldable pub mock_transcribe : String → String → Result String
mock_transcribe video_url job_id =
    ok ("mock transcript for " <> video_url <> " (job_id=" <> job_id <> ")\n")
