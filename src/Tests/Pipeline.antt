-- ===== src/Tests/Pipeline.antt =====
-- The theorems on the pipeline at concrete inputs.
use mathlib.Core.Option
use local_transcription_serv.Prelude.{pos, String, ◌<>◌, true, none, some, [], ◌∷◌, ◌≡◌, refl}
use local_transcription_serv.Pipeline.Process.{
  Entry, Machine, completes, ProcResult, run_subprocess,
}
use local_transcription_serv.Pipeline.Stages.{
  RealPipeline, fetch_argv, fetch_media, run_stages, real_transcribe,
}
use local_transcription_serv.Pipeline.Whisper.{whisper_transcribe}
use local_transcription_serv.Pipeline.Cleaning.{without_job, real_transcribe_cleans}
use local_transcription_serv.Pipeline.Outcomes.{FetchOutcome, fetch_media_comes_to}
use local_transcription_serv.Pipeline.Logged.{IsLogged, whisper_transcribe-IsLogged}
use local_transcription_serv.Stt.Engines.{litellm_engine}
use local_transcription_serv.Tests.Service.{gateway, client}

abbrev file : String → Entry
file name = record { name = name; is_file = true }

-- Every program succeeds and leaves the files of two jobs.
abbrev pub machine : Machine
machine = record {
  program = λ argv time cache.
      (some (file "a.wav" ∷ file "a.webm" ∷ file "b.wav" ∷ []), completes (pos 0) "" "");
  mkdir = none;
  iterdir = none;
  unlink = λ name. true;
  matches = λ pattern name. true;
  join = λ dir name. dir <> "/" <> name;
  decode = λ s. s;
  lower = λ s. s;
  decimal = λ n. "1";
  repr = λ s. s;
}

abbrev pub pipeline : RealPipeline
pipeline = record {
  stt_engine = litellm_engine gateway client (λ cache. cache);
  audio_cache_dir = "audio-cache";
  ytdlp_bin = "yt-dlp";
  ffmpeg_bin = "ffmpeg";
}

real_transcribe_cleans_example :
    let (stopped, result) = run_stages machine pipeline "https://youtu.be/a" "a" none in
    real_transcribe machine pipeline "https://youtu.be/a" "a" none
    ≡ (Option.map (without_job "a") stopped, result)
real_transcribe_cleans_example =
    real_transcribe_cleans machine pipeline "https://youtu.be/a" "a" none refl (λ name h. refl)

fetch_media_comes_to_example :
    let argv = fetch_argv "yt-dlp" "audio-cache/a.%(ext)s" "https://youtu.be/a" in
    let (next, run) = run_subprocess machine argv "300.0" (some []) in
    let (left, result) =
      fetch_media machine "audio-cache" "yt-dlp" "300.0" "https://youtu.be/a" "a" none in
    (left ≡ next) × FetchOutcome machine "a" run next result
fetch_media_comes_to_example =
    fetch_media_comes_to machine "audio-cache" "yt-dlp" "300.0" "https://youtu.be/a" "a" none refl

abbrev refused : ProcResult
refused = record { returncode = pos 1; stdout = ""; stderr = "http error 403" }

whisper_transcribe-IsLogged_example :
    IsLogged "a"
      (λ stage. "0.1")
      []
      (run_stages machine pipeline "https://youtu.be/a" "a" none).1
      (real_transcribe machine pipeline "https://youtu.be/a" "a" none)
      (whisper_transcribe machine pipeline
        (λ stage. "0.1")
        "https://youtu.be/a"
        "a"
        (record { cache = none; log = [] }))
whisper_transcribe-IsLogged_example =
    whisper_transcribe-IsLogged machine pipeline (λ stage. "0.1") "https://youtu.be/a" "a"
      (record { cache = none; log = [] })
