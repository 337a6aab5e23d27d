-- ===== src/Pipeline/Messages.antt =====
-- How long the message about an exit of yt-dlp is: `fetch_media` of
-- src/local_transcription_service/pipeline/stages.py.
use Prim.Native.String.{count}
use text.Mathlib.TextLemmas.{length-append}
use local_transcription_serv.Prelude.{
  ◌+◌, ◌≤◌, String, ◌<>◌, Bool-cases, inl, inr, count-take_chars, arith,
}
use local_transcription_serv.Pipeline.{Exception, pipeline_error, other_error}
use local_transcription_serv.Pipeline.Process.{Machine, ProcResult}
use local_transcription_serv.Pipeline.Stages.{
  network_error_patterns, permanent_error_patterns, mentions, snippet, fetch_error,
}

exit_message_bound :
    (heading middle : String) (m : Machine) (r : ProcResult)
    → count (heading <> m.decimal r.returncode <> middle <> snippet m r)
      ≤ count heading + count middle + count (m.decimal r.returncode) + 500
exit_message_bound heading middle m r = omega (
  arith,
  length-append heading (m.decimal r.returncode <> middle <> snippet m r),
  length-append (m.decimal r.returncode) (middle <> snippet m r),
  length-append middle (snippet m r),
  count-take_chars 500 (m.decode r.stderr),
)

abbrev pub message_of : Exception → String
message_of (pipeline_error message code retryable) = message
message_of (other_error type_name text) = text

-- Whatever yt-dlp prints, the message about its exit has at most 532 characters beside the digits of
-- its exit code.
pub fetch_error_bounds :
    (m : Machine) (r : ProcResult)
    → count (message_of (fetch_error m r)) ≤ count (m.decimal r.returncode) + 532
unfolding fetch_error
fetch_error_bounds m r =
    let text = m.lower (m.decode r.stderr) in
    elim (Bool-cases (mentions permanent_error_patterns text)) [
      | inl p ↦ rw p (omega (arith, exit_message_bound "yt-dlp permanent error (exit=" "): " m r))
      | inr p ↦ elim (Bool-cases (mentions network_error_patterns text)) [
        | inl n ↦
            rw (p, n) (omega (arith, exit_message_bound "yt-dlp network error (exit=" "): " m r))
        | inr n ↦ rw (p, n) (omega (arith, exit_message_bound "yt-dlp exited " ": " m r))
      ]
    ]
