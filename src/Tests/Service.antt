-- ===== src/Tests/Service.antt =====
-- The theorems on the worker, the counter and the speech-to-text client at concrete inputs.
use local_transcription_serv.Prelude.{
  ℕ, String, true, false, any, Option, none, some, List, [], ◌∷◌, ◌≡◌, ◌==◌, refl, ◌+◌, ◌↔◌,
}
use local_transcription_serv.Metrics.{count_of, Event, failure, timeout, stop, run_error_rate_loop}
use local_transcription_serv.Metrics.Ticks.{failures, ticked, run_error_rate_loop-accounts}
use local_transcription_serv.FileWrite.{written}
use local_transcription_serv.Stt.Uploads.{is_upload, transcribe_uploads}
use local_transcription_serv.Stt.Ready.{Lists}
use local_transcription_serv.Models.{Job, Row, at_utc}
use local_transcription_serv.Models.Status.{claimed, queued}
use local_transcription_serv.Pipeline.{pipeline_error, ok, raises}
use local_transcription_serv.Store.Table.{find_row}
use local_transcription_serv.Store.Keyed.{UniqueIds}
use local_transcription_serv.Store.History.{Op, submits, reclaims, run}
use local_transcription_serv.Stt.{
  Json, string, array, object, no_elements, element, no_members, member, Reply, answer,
  request_error, bytes, Request, get_models, post_audio, Gateway, Client, models_of, transcribe,
}
use local_transcription_serv.Stt.Classified.{Classified, is_fault, transcribe_raises}
use local_transcription_serv.Stt.Models.{IsListing, models_of_iff}
use local_transcription_serv.Tests.Clock.{clock, clock-IsLawful}
use local_transcription_serv.Worker.{WorkerSettings, World, Surroundings, process_one}
use local_transcription_serv.Worker.Settles.{Settled, verdict}
use local_transcription_serv.Worker.Iteration.{held, held_row, process_one_settles}
use local_transcription_serv.Store.Claim.{first_eligible, eligible}
use local_transcription_serv.Models.{to_row, iso}
use local_transcription_serv.Prelude.{◌≤◌}
use local_transcription_serv.Worker.Loops.{claim_loop}
use local_transcription_serv.Worker.Calls.{calls}
use local_transcription_serv.Store.Begun.{attempts}
use local_transcription_serv.Worker.Attempts.{Acts, claim_loop_bounds}

abbrev events : List Event
events = failure "E" ∷ timeout ∷ failure "E" ∷ failure "F" ∷ stop ∷ failure "E" ∷ []

run_error_rate_loop-accounts_example :
    let (ticks, last) = run_error_rate_loop events [] in
    ticked "E" ticks + count_of "E" last ≡ count_of "E" [] + failures "E" events
run_error_rate_loop-accounts_example = run_error_rate_loop-accounts "E" events []

abbrev pub settings : WorkerSettings
settings = record {
  lease_ttl_seconds = 1;
  max_attempts = 3;
  retry_backoff_seconds = 1;
  results_dir = "results";
}

abbrev pub between : ℕ → List Op
between k = reclaims k ∷ submits k "x" "https://youtu.be/x" none ∷ []

-- The pipeline fails for a reason that a retry can mend, and the database refuses to put the job off.
abbrev pub busy : Surroundings
busy = record {
  clock = λ k. k;
  others = λ k db. run clock (between k) db;
  refused = λ k. k == 3;
  token = "t";
  transcribe = λ url id. raises (pipeline_error "no route" "STT_GATEWAY_UNAVAILABLE" true);
  decimal = λ n. "3";
  write = λ path text. written;
}

abbrev leased : Row
leased = record {
  job_id = "a";
  video_url = "https://youtu.be/a";
  status = claimed;
  attempt = 1;
  lease_token = some "t";
  lease_expires_at = some "zzzzzu";
  next_retry_at = none;
  created_at = "zu";
  started_at = none;
  finished_at = none;
  transcript_path = none;
  error_code = none;
  error_message = none;
  error_retryable = none;
  acked_at = none;
}

abbrev pub world : World
world = record {
  db = leased ∷ [];
  files = λ path. none;
  error_rate_counter = some [];
  completed = [];
  transcribed = [];
}

abbrev pub quiet : Surroundings
quiet = record busy { others = λ k db. db; refused = λ k. false }

abbrev pub waiting_job : Job
waiting_job = record {
  job_id = "a";
  video_url = "https://youtu.be/a";
  status = queued;
  attempt = 1;
  created_at = at_utc 1;
  started_at = none;
  finished_at = none;
  lease_token = none;
  lease_expires_at = none;
  next_retry_at = none;
  transcript_path = none;
  error = none;
  acked_at = none;
}

abbrev waiting_world : World
waiting_world = record world { db = to_row clock waiting_job ∷ [] }

unique : UniqueIds waiting_world.db
unfolding find_row
unique = (refl, tt)

process_one_settles_example :
    Settled clock settings quiet
      (held clock settings quiet waiting_job)
      (held_row clock settings quiet waiting_job)
      waiting_world
      (process_one clock settings quiet waiting_world)
      (verdict clock settings quiet
        (held clock settings quiet waiting_job)
        (held_row clock settings quiet waiting_job))
unfolding first_eligible eligible to_row iso
process_one_settles_example =
    process_one_settles clock settings quiet clock-IsLawful (λ k db. refl) (λ k. refl) waiting_job
      waiting_world unique refl

abbrev pub listing : Option Json
listing = some (
    object (
      member "data"
        (array (element (object (member "id" (string "whisper") no_members)) no_elements))
        no_members))

abbrev pub reply : Request → Reply
reply (get_models timeout_s) = answer (record { status_code = 200; json = listing })
reply (post_audio timeout_s model language name audio) = request_error "timed out"

abbrev pub gateway : Gateway
gateway = record {
  send = reply;
  timely = true;
  read_bytes = λ path. bytes "RIFF";
  decimal = λ n. "200";
  repr = λ s. s;
  file_name = λ path. path;
}

abbrev pub client : Client
client = record { model = "whisper"; timeout_s = 600; readiness_timeout_s = 5 }

models_of_iff_example :
    (models_of listing ≡ ok ("whisper" ∷ [])) ↔ IsListing listing ("whisper" ∷ [])
models_of_iff_example = models_of_iff listing ("whisper" ∷ [])

no_fault : (r : Request) → is_fault (gateway.send r) ≡ false
no_fault (get_models timeout_s) = refl
no_fault (post_audio timeout_s model language name audio) = refl

transcribe_raises_example : Classified true (transcribe gateway client "a.wav" (some "en")).1
transcribe_raises_example = transcribe_raises gateway client "a.wav" (some "en")

acts : Acts clock busy
acts = record { between = between; committed = λ k db. refl }

claim_loop_bounds_example :
    let last = (claim_loop clock settings (busy ∷ busy ∷ []) world).0 in
    (calls "a" last.transcribed ≤ settings.max_attempts)
    × (calls "a" last.transcribed ≤ attempts "a" last.db)
unfolding find_row
claim_loop_bounds_example =
    claim_loop_bounds clock settings (busy ∷ busy ∷ []) world (acts, (acts, tt)) (refl, tt) refl "a"

transcribe_uploads_example : (any is_upload (transcribe gateway client "a.wav" none).0 ≡ true) ↔ (
    Lists gateway client.timeout_s client.model
    × ((audio : String) × (gateway.read_bytes "a.wav" ≡ bytes audio)))
transcribe_uploads_example = transcribe_uploads gateway client "a.wav" none
