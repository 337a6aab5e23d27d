-- ===== src/Pipeline/Stages.antt =====
-- The three stages and `RealPipeline`: src/local_transcription_service/pipeline/stages.py.
-- A float is its text. The engine of the third stage is a field of the pipeline.
use local_transcription_serv.Prelude.{
  String, ◌<>◌, Bool, true, false, not, ◌&&◌, none, some, List, [], ◌∷◌, any, filter, sorted,
  is_zero, contains, ends_with, take_chars, text_eq, text_le, if◌then◌else◌,
}
use local_transcription_serv.Pipeline.{Exception, pipeline_error, other_error, Result, ok, raises}
use local_transcription_serv.Pipeline.Process.{
  Entry, entries, Cache, Machine, ProcResult, Ran, returned, file_not_found, timeout_error, failed,
  run_subprocess, Stage, ◌>>=◌,
}
use local_transcription_serv.Pipeline.Engine.{SttEngine}
use local_transcription_serv.Pipeline.Cache.{cleanup_job_files}

abbrev pub fetch_timeout_s : String
fetch_timeout_s = "300.0"

abbrev pub condition_timeout_s : String
condition_timeout_s = "120.0"

unfoldable pub network_error_patterns : List String
network_error_patterns =
    "unable to download webpage" ∷ "unable to extract" ∷ "http error"
    ∷ "temporary failure in name resolution" ∷ "network is unreachable" ∷ "connection refused"
    ∷ "connection reset" ∷ "connection aborted" ∷ "remote end closed connection"
    ∷ "no address associated with hostname" ∷ "could not resolve host" ∷ []

unfoldable pub permanent_error_patterns : List String
permanent_error_patterns =
    "ssl: certificate verify failed" ∷ "certificate verify failed"
    ∷ "unable to load client certificate" ∷ []

-- `any(p in text for p in patterns)`
unfoldable pub mentions : List String → String → Bool
mentions patterns text = any (λ p. contains p text) patterns

abbrev pub fetch_failed : String → Bool → Exception
fetch_failed message retryable = pipeline_error message "FETCH_FAILED" retryable

abbrev pub conditioning_failed : String → Exception
conditioning_failed message = pipeline_error message "AUDIO_CONDITIONING_FAILED" false

abbrev pub fetch_argv : String → String → String → List String
fetch_argv ytdlp_bin output_template video_url =
    ytdlp_bin ∷ "--ignore-config" ∷ "--no-write-info-json" ∷ "--no-write-thumbnail"
    ∷ "--no-playlist" ∷ "--no-progress" ∷ "--no-part" ∷ "--no-mtime" ∷ "-f" ∷ "bestaudio/best"
    ∷ "-o" ∷ output_template ∷ video_url ∷ []

abbrev pub condition_argv : String → String → String → List String
condition_argv ffmpeg_bin raw_path wav_path =
    ffmpeg_bin ∷ "-nostdin" ∷ "-hide_banner" ∷ "-loglevel" ∷ "error" ∷ "-y" ∷ "-i" ∷ raw_path
    ∷ "-ar" ∷ "16000" ∷ "-ac" ∷ "1" ∷ "-c:a" ∷ "pcm_s16le" ∷ "-f" ∷ "wav" ∷ wav_path ∷ []

-- `path.is_file()`, for a name in the cache directory
unfoldable pub is_file : String → Cache → Bool
is_file name cache = any (λ e. text_eq e.name name && e.is_file) (entries cache)

module _ (m : Machine) where
  abbrev pub snippet : ProcResult → String
  snippet r = take_chars 500 (m.decode r.stderr)

  -- The exception for a yt-dlp that exits with another code than 0.
  unfoldable pub fetch_error : ProcResult → Exception
  fetch_error r =
      let stderr_text = m.lower (m.decode r.stderr) in
      if mentions permanent_error_patterns stderr_text
      then fetch_failed
          ("yt-dlp permanent error (exit=" <> m.decimal r.returncode <> "): " <> snippet r) false
      else (if mentions network_error_patterns stderr_text
          then fetch_failed
              ("yt-dlp network error (exit=" <> m.decimal r.returncode <> "): " <> snippet r) true
          else fetch_failed ("yt-dlp exited " <> m.decimal r.returncode <> ": " <> snippet r) false)

  -- A file that matches `{job_id}.*` and is not partial.
  abbrev pub is_candidate : String → Entry → Bool
  is_candidate job_id e =
      m.matches (job_id <> ".*") e.name && (e.is_file && not (ends_with e.name ".part"))

  module _ (cache_dir : String) where
    -- The name of the file that yt-dlp wrote.
    unfoldable pub first_candidate : String → Cache → Result String
    first_candidate job_id cache =
        elim (sorted (λ a b. text_le a.name b.name)
          (filter (is_candidate job_id) (entries cache))) [
            | [] ↦ raises (
                fetch_failed
                  ("yt-dlp exited 0 but produced no file matching "
                    <> m.join cache_dir job_id
                    <> ".*")
                  false)
            | e ∷ es ↦ ok e.name
          ]

    -- After the call of yt-dlp.
    unfoldable pub fetched : String → String → String → String → Ran → Cache → Result String
    fetched ytdlp_bin proc_timeout_s video_url job_id (returned r) cache =
        if is_zero r.returncode then first_candidate job_id cache else raises (fetch_error r)
    fetched ytdlp_bin proc_timeout_s video_url job_id file_not_found cache = raises (
        fetch_failed ("yt-dlp binary not found on PATH (looked for " <> m.repr ytdlp_bin <> ")")
          false)
    fetched ytdlp_bin proc_timeout_s video_url job_id timeout_error cache =
        raises
          (fetch_failed ("yt-dlp timed out after " <> proc_timeout_s <> "s for " <> video_url) true)
    fetched ytdlp_bin proc_timeout_s video_url job_id (failed type_name text) cache =
        raises (other_error type_name text)

    -- `fetch_media`; it returns a name in the cache directory.
    unfoldable pub fetch_media : String → String → String → String → Stage String
    fetch_media ytdlp_bin proc_timeout_s video_url job_id cache = elim m.mkdir [
      | some (type_name, text) ↦ (cache, raises (other_error type_name text))
      | none ↦
          let argv = fetch_argv ytdlp_bin (m.join cache_dir (job_id <> ".%(ext)s")) video_url in
          let (next, run) = run_subprocess m argv proc_timeout_s (some (entries cache)) in
          (next, fetched ytdlp_bin proc_timeout_s video_url job_id run next)
    ]

    -- After the call of ffmpeg.
    unfoldable pub conditioned : String → String → String → String → Ran → Cache → Result String
    conditioned ffmpeg_bin proc_timeout_s raw_name wav_name (returned r) cache =
        if is_zero r.returncode
        then (if is_file wav_name cache
            then ok wav_name
            else raises (
                conditioning_failed
                  ("ffmpeg exited 0 but " <> m.join cache_dir wav_name <> " was not created")))
        else raises
            (conditioning_failed ("ffmpeg exited " <> m.decimal r.returncode <> ": " <> snippet r))
    conditioned ffmpeg_bin proc_timeout_s raw_name wav_name file_not_found cache = raises (
        conditioning_failed
          ("ffmpeg binary not found on PATH (looked for " <> m.repr ffmpeg_bin <> ")"))
    conditioned ffmpeg_bin proc_timeout_s raw_name wav_name timeout_error cache = raises (
        conditioning_failed
          ("ffmpeg timed out after " <> proc_timeout_s <> "s converting " <> raw_name))
    conditioned ffmpeg_bin proc_timeout_s raw_name wav_name (failed type_name text) cache =
        raises (other_error type_name text)

    -- `condition_audio`, on two names in the cache directory.
    unfoldable pub condition_audio : String → String → String → String → Stage String
    condition_audio ffmpeg_bin proc_timeout_s raw_name wav_name cache =
        let argv =
          condition_argv ffmpeg_bin (m.join cache_dir raw_name) (m.join cache_dir wav_name) in
        let (next, run) = run_subprocess m argv proc_timeout_s cache in
        (next, conditioned ffmpeg_bin proc_timeout_s raw_name wav_name run next)

-- `RealPipeline`
pub record RealPipeline : Type 0 where
  pub stt_engine : SttEngine
  pub audio_cache_dir : String
  pub ytdlp_bin : String
  pub ffmpeg_bin : String

module _ (m : Machine) (p : RealPipeline) where
  abbrev pub fetch : String → String → Stage String
  fetch video_url job_id =
      fetch_media m p.audio_cache_dir p.ytdlp_bin fetch_timeout_s video_url job_id

  abbrev pub condition : String → String → Stage String
  condition raw_name job_id =
      condition_audio m p.audio_cache_dir p.ffmpeg_bin condition_timeout_s raw_name
        (job_id <> ".wav")

  abbrev pub recognise : String → Stage String
  recognise job_id = p.stt_engine.transcribe (m.join p.audio_cache_dir (job_id <> ".wav")) none

  -- The body of the `try`.
  unfoldable pub run_stages : String → String → Stage String
  run_stages video_url job_id = do
    raw_name ← fetch video_url job_id
    wav_name ← condition raw_name job_id
    recognise job_id

  -- The `finally`: an exception of the clean-up takes the place of what the body came to.
  unfoldable pub cleaned : String → Cache × Result String → Cache × Result String
  cleaned job_id (cache, result) =
      let (left, removed) = cleanup_job_files m job_id cache in
      elim removed [ ok n ↦ (left, result) | raises exc ↦ (left, raises exc) ]

  -- `RealPipeline.transcribe`
  unfoldable pub real_transcribe : String → String → Stage String
  real_transcribe video_url job_id cache = cleaned job_id (run_stages video_url job_id cache)
