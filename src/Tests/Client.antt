-- ===== src/Tests/Client.antt =====
-- The theorems on submissions and acknowledgements as wholes, at concrete inputs.
use local_transcription_serv.Prelude.{
  String, true, false, none, some, [], ◌∷◌, ◌≡◌, ◌≢◌, refl, arith, ap, text_eq, if◌then◌else◌, ◌==◌,
}
use local_transcription_serv.FileWrite.{written}
use local_transcription_serv.Models.{Job, to_row, iso}
use local_transcription_serv.Models.Status.{done}
use local_transcription_serv.Pipeline.{ok}
use local_transcription_serv.Store.Table.{find_row}
use local_transcription_serv.Store.Claim.{first_eligible, eligible}
use local_transcription_serv.Api.{submit_job, success, get_job, get_result}
use local_transcription_serv.Api.Ack.{World, ack_job}
use local_transcription_serv.Api.Ack.Phases.{Attempt, Movable, untouched, surroundings, InPhase}
use local_transcription_serv.Api.Ack.Interrupted.{Finished}
use local_transcription_serv.Api.Ack.Converges.{ack_all, acks_converge}
use local_transcription_serv.Client.Delivery.{Delivers, submission-Delivers}
use local_transcription_serv.Client.Whole.{Answered, submission-Answered}
use local_transcription_serv.Pipeline.Whisper.{whisper_transcribe}
use local_transcription_serv.Tests.Pipeline.{machine, pipeline}
use local_transcription_serv.Worker as Worker
use local_transcription_serv.Tests.Clock.{clock, clock-IsLawful}
use local_transcription_serv.Tests.Files.{file_system, transcripts, elsewhere}
use local_transcription_serv.Tests.Service.{gateway, client, settings, quiet, waiting_job, world}

abbrev speech : Worker.Surroundings
speech = record quiet { transcribe = λ url job_id. ok "hello\r\nyou"; write = λ path text. written }

submission-Delivers_example :
    Delivers clock settings speech 1 "b" "https://youtu.be/b"
      (ok "hello\r\nyou")
      (Worker.process_one clock settings speech
        (record world { db = (submit_job clock 1 "b" "https://youtu.be/b" world.db).0 })).1
unfolding first_eligible eligible find_row text_eq
submission-Delivers_example =
    submission-Delivers clock settings speech 1 "b" "https://youtu.be/b" clock-IsLawful
      (λ k db. refl) (λ k. refl) (λ text. refl) (omega arith) world (refl, tt) refl refl

-- The pipeline of a worker whose gateway does not answer.
abbrev whisper : Worker.Surroundings
whisper = record speech {
  transcribe = λ url job_id.
      (whisper_transcribe machine pipeline (λ stage. "0.1") url job_id
        (record { cache = none; log = [] })).1;
}

submission-Answered_example :
    let after =
      (Worker.process_one clock settings whisper
        (record world { db = (submit_job clock 1 "b" "https://youtu.be/b" world.db).0 })).1 in
    Answered settings (get_job clock "b" after.db after.files)
unfolding first_eligible eligible find_row text_eq
submission-Answered_example =
    submission-Answered clock settings whisper 1 "b" "https://youtu.be/b" machine pipeline
      (λ stage. "0.1") gateway client (λ cache. cache) (record { cache = none; log = [] })
      clock-IsLawful (λ k db. refl) (λ k. refl) (λ text. refl) (omega arith) refl refl world
      (refl, tt) refl refl

abbrev finished_job : Job
finished_job = record waiting_job { status = done; transcript_path = some "results/a.md" }

abbrev ack_world : World
ack_world = record { db = to_row clock finished_job ∷ []; files = transcripts }

abbrev parent : String → String
parent path = if text_eq path "trash/a.md" then "trash" else "results"

dirs_apart : ◌≢◌ {A = String} "results" "trash"
unfolding text_eq
dirs_apart h = absurd (clash (ap (text_eq "results") h))
  where
    clash : true ≡ false → ⊥
    clash k = ground arith

movable : Movable file_system "trash" parent "results/a.md"
unfolding text_eq
movable = record {
  source = "results/a.md";
  destination = "trash/a.md";
  source_dir = "results";
  trash = "trash";
  nonempty = refl;
  trash_nonempty = refl;
  mkdir = refl;
  replaces = refl;
  resolves = refl;
  trash_resolves = refl;
  apart = elsewhere;
  path_apart = elsewhere;
  parent_resolves = refl;
  dir_resolves = refl;
  outside = dirs_apart;
  inside = refl;
}

-- The database refuses the statement after the move.
abbrev interrupted : Attempt
interrupted = record { now = 5; db_error = λ k. if k == 3 then some "locked" else none }

abbrev clear : Attempt
clear = record { now = 6; db_error = λ k. none }

in_phase :
    InPhase clock file_system "trash" parent finished_job "results/a.md" transcripts none untouched
      ack_world
unfolding find_row text_eq to_row iso
in_phase = record { unique = (refl, tt); row = refl; files_kept = refl }

acks_converge_example :
    let ended =
      ack_job clock
        (surroundings clock file_system "trash" parent finished_job "results/a.md" transcripts
          clear)
        "a"
        (ack_all clock file_system "trash" parent finished_job "results/a.md" transcripts
          (interrupted ∷ [])
          ack_world) in
    Finished clock file_system "trash" parent finished_job "results/a.md" transcripts ended
    × (get_result clock "a" ended.0.db ended.0.files ≡ success "trash/a.md")
    × (ended.0.files "trash/a.md" ≡ transcripts "results/a.md")
unfolding text_eq
acks_converge_example =
    acks_converge clock file_system "trash" parent finished_job "results/a.md" transcripts
      clock-IsLawful refl movable refl (interrupted ∷ []) clear (λ k. refl) ack_world none in_phase
