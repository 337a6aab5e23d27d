-- ===== src/Pipeline/Outcomes.antt =====
-- What the first two stages come to: `fetch_media` and `condition_audio` of
-- src/local_transcription_service/pipeline/stages.py.
use local_transcription_serv.Prelude.{
  String, ◌<>◌, Bool, true, false, not, ◌&&◌, ◌||◌, none, some, List, [], ◌∷◌, ◌≡◌, refl, sym, any,
  filter, is_zero, All, All-mono, All-sorted, sorted, text_eq, text_eq_self, text_le, Bool-cases,
  inl, inr, arith, if◌then◌else◌,
}
use local_transcription_serv.Pipeline.{pipeline_error, other_error, Result, ok, raises}
use local_transcription_serv.Pipeline.Process.{
  Entry, entries, Cache, Machine, ProcResult, Ran, returned, file_not_found, timeout_error, failed,
  run_subprocess,
}
use local_transcription_serv.Pipeline.Stages.{
  network_error_patterns, permanent_error_patterns, mentions, fetch_argv, condition_argv,
  fetch_error, is_candidate, first_candidate, fetched, fetch_media, is_file, conditioned,
  condition_audio,
}

abbrev pub succeeded : Ran → Bool
succeeded (returned r) = is_zero r.returncode
succeeded _ = false

-- A timeout, or an exit with a mark of the network and none of a permanent error.
abbrev pub is_transient : Machine → Ran → Bool
is_transient m timeout_error = true
is_transient m (returned r) =
    let text = m.lower (m.decode r.stderr) in
    not (is_zero r.returncode)
    && (not (mentions permanent_error_patterns text) && mentions network_error_patterns text)
is_transient m _ = false

-- What `fetch_media` may come to after yt-dlp, by how it ran and what it left in the cache.
abbrev pub FetchOutcome : Machine → String → Ran → Cache → Result String → Type 0
FetchOutcome m job_id run cache (ok name) =
    (succeeded run ≡ true)
    × (any (λ e. text_eq e.name name && is_candidate m job_id e) (entries cache) ≡ true)
FetchOutcome m job_id run cache (raises (pipeline_error message code retryable)) =
    (code ≡ "FETCH_FAILED") × (retryable ≡ is_transient m run)
FetchOutcome m job_id run cache (raises (other_error type_name text)) = run ≡ failed type_name text

All-cons_if :
    (P : Entry → Type 0) (b : Bool) (x : Entry) (xs : List Entry)
    → (b ≡ true → P x)
    → All P xs
    → All P (if b then x ∷ xs else xs)
All-cons_if P true x xs h k = (h refl, k)
All-cons_if P false x xs h k = k

or_true : (a b : Bool) → b ≡ true → (a || b) ≡ true
or_true a b h = ground arith

module _ (m : Machine) (job_id : String) where
  -- Whether some candidate among the entries has that name.
  abbrev pub has_candidate : List Entry → String → Bool
  has_candidate es name = any (λ e. text_eq e.name name && is_candidate m job_id e) es

  candidates_found :
      (es : List Entry)
      → All (λ e. has_candidate es e.name ≡ true) (filter (is_candidate m job_id) es)
  candidates_found [] = tt
  candidates_found (x ∷ es) =
      let P : Entry → Type 0 = λ e. has_candidate (x ∷ es) e.name ≡ true in
      let later : All P (filter (is_candidate m job_id) es) =
        All-mono _ P (filter (is_candidate m job_id) es) (λ e h. or_true _ _ h)
          (candidates_found es) in
      All-cons_if P (is_candidate m job_id x) x (filter (is_candidate m job_id) es)
        (λ e. rw (e, text_eq_self x.name) refl) later

  first_candidate-FetchOutcome :
      (cache_dir : String) (run : Ran) (cache : Cache)
      → succeeded run ≡ true
      → is_transient m run ≡ false
      → FetchOutcome m job_id run cache (first_candidate m cache_dir job_id cache)
  unfolding first_candidate
  first_candidate-FetchOutcome cache_dir run cache exited final =
      by_first (sorted _ (filter (is_candidate m job_id) (entries cache)))
        (All-sorted _ _ (filter (is_candidate m job_id) (entries cache))
          (candidates_found (entries cache)))
        refl
    where
      by_first :
          (es : List Entry)
          → All (λ e. has_candidate (entries cache) e.name ≡ true) es
          → sorted (λ a b. text_le a.name b.name) (filter (is_candidate m job_id) (entries cache))
            ≡ es
          → FetchOutcome m job_id run cache (first_candidate m cache_dir job_id cache)
      by_first [] h e = rw (e, first_candidate) (refl, sym final)
      by_first (x ∷ es) h e = rw (e, first_candidate) (exited, h.0)

  fetch_error-FetchOutcome :
      (r : ProcResult) (cache : Cache)
      → is_zero r.returncode ≡ false
      → FetchOutcome m job_id (returned r) cache (raises (fetch_error m r))
  unfolding fetch_error
  fetch_error-FetchOutcome r cache h =
      let text = m.lower (m.decode r.stderr) in
      elim (Bool-cases (mentions permanent_error_patterns text)) [
        | inl p ↦ rw (p, h, p) (refl, refl)
        | inr p ↦ elim (Bool-cases (mentions network_error_patterns text)) [
          | inl n ↦ rw (p, n, h, p, n) (refl, refl)
          | inr n ↦ rw (p, n, h, p, n) (refl, refl)
        ]
      ]

  module _ (cache_dir ytdlp_bin proc_timeout_s video_url : String) where
    fetched-FetchOutcome :
        (run : Ran) (cache : Cache)
        → FetchOutcome m job_id run cache
            (fetched m cache_dir ytdlp_bin proc_timeout_s video_url job_id run cache)
    unfolding fetched
    fetched-FetchOutcome (returned r) cache = elim (Bool-cases (is_zero r.returncode)) [
      | inl z ↦ rw z (first_candidate-FetchOutcome cache_dir (returned r) cache z (ground arith))
      | inr z ↦ rw z (fetch_error-FetchOutcome r cache z)
    ]
    fetched-FetchOutcome file_not_found cache = (refl, refl)
    fetched-FetchOutcome timeout_error cache = (refl, refl)
    fetched-FetchOutcome (failed type_name text) cache = refl

-- If the cache directory can be made, `fetch_media` returns a name only if yt-dlp exited with 0 and
-- left a file of that name which matches the job's pattern and is not partial. Every
-- `PipelineError` that it raises is FETCH_FAILED, and asks for a retry exactly if yt-dlp timed out,
-- or exited with another code and reported an error of the network and no permanent one. Any other
-- exception is one that kept yt-dlp from starting, or the one of a `kill` that came too late.
pub fetch_media_comes_to :
    (m : Machine) (cache_dir ytdlp_bin proc_timeout_s video_url job_id : String) (cache : Cache)
    → m.mkdir ≡ none
    → let argv = fetch_argv ytdlp_bin (m.join cache_dir (job_id <> ".%(ext)s")) video_url in
      let (next, run) = run_subprocess m argv proc_timeout_s (some (entries cache)) in
      let (left, result) =
        fetch_media m cache_dir ytdlp_bin proc_timeout_s video_url job_id cache in
      (left ≡ next) × FetchOutcome m job_id run next result
unfolding fetch_media run_subprocess
fetch_media_comes_to m cache_dir ytdlp_bin proc_timeout_s video_url job_id cache made =
    rw (made, fetch_media)
      (refl, fetched-FetchOutcome m job_id cache_dir ytdlp_bin proc_timeout_s video_url _ _)

-- What `condition_audio` may come to after ffmpeg.
abbrev pub ConditionOutcome : String → Ran → Cache → Result String → Type 0
ConditionOutcome wav_name run cache (ok name) =
    (succeeded run ≡ true) × (name ≡ wav_name) × (is_file wav_name cache ≡ true)
ConditionOutcome wav_name run cache (raises (pipeline_error message code retryable)) =
    (code ≡ "AUDIO_CONDITIONING_FAILED") × (retryable ≡ false)
ConditionOutcome wav_name run cache (raises (other_error type_name text)) =
    run ≡ failed type_name text

-- `condition_audio` returns the wav file only if ffmpeg exited with 0 and the file is there. Every
-- `PipelineError` that it raises is AUDIO_CONDITIONING_FAILED and asks for no retry. Any other
-- exception is one that kept ffmpeg from starting.
pub condition_audio_comes_to :
    (m : Machine) (cache_dir ffmpeg_bin proc_timeout_s raw_name wav_name : String) (cache : Cache)
    → let argv =
        condition_argv ffmpeg_bin (m.join cache_dir raw_name) (m.join cache_dir wav_name) in
      let (next, run) = run_subprocess m argv proc_timeout_s cache in
      let (left, result) =
        condition_audio m cache_dir ffmpeg_bin proc_timeout_s raw_name wav_name cache in
      (left ≡ next) × ConditionOutcome wav_name run next result
unfolding condition_audio conditioned
condition_audio_comes_to m cache_dir ffmpeg_bin proc_timeout_s raw_name wav_name cache =
    (refl, conditioned-ConditionOutcome _ _)
  where
    conditioned-ConditionOutcome :
        (run : Ran) (after : Cache)
        → ConditionOutcome wav_name run after
            (conditioned m cache_dir ffmpeg_bin proc_timeout_s raw_name wav_name run after)
    conditioned-ConditionOutcome (returned r) after = elim (Bool-cases (is_zero r.returncode)) [
      | inl z ↦ elim (Bool-cases (is_file wav_name after)) [
        | inl f ↦ rw (z, f) (z, refl, f)
        | inr f ↦ rw (z, f) (refl, refl)
      ]
      | inr z ↦ rw z (refl, refl)
    ]
    conditioned-ConditionOutcome file_not_found after = (refl, refl)
    conditioned-ConditionOutcome timeout_error after = (refl, refl)
    conditioned-ConditionOutcome (failed type_name text) after = refl
