-- ===== src/Tests/Http.antt =====
-- The theorems on the HTTP handlers at concrete inputs.
use local_transcription_serv.Prelude.{ℕ, none, some, List, [], ◌∷◌, refl}
use local_transcription_serv.Models.{Row}
use local_transcription_serv.Models.Status.{done}
use local_transcription_serv.Store.History.{Op, reclaims, submits, run}
use local_transcription_serv.Api.Ack.{Surroundings, World, ack_job}
use local_transcription_serv.Api.Ack.Effects.{Acknowledges, ack_job-Acknowledges}
use local_transcription_serv.Tests.Clock.{clock}
use local_transcription_serv.Tests.Files.{file_system, transcripts}
use local_transcription_serv.Tests.Store.{leased_row}

abbrev done_row : Row
done_row = record leased_row {
  status = done;
  lease_token = none;
  lease_expires_at = none;
  started_at = some "zzu";
  finished_at = some "zzzu";
  transcript_path = some "results/a.md";
}

abbrev world : World
world = record { db = done_row ∷ []; files = transcripts }

abbrev between : ℕ → List Op
between k = reclaims k ∷ submits k "x" "https://youtu.be/x" none ∷ []

abbrev surroundings : Surroundings
surroundings = record {
  file_system = file_system;
  trash_dir = "trash";
  parent = λ path. "results";
  now = 7;
  others = λ k db. run clock (between k) db;
  db_error = λ k. none;
}

ack_job-Acknowledges_example :
    Acknowledges clock surroundings world (ack_job clock surroundings "a" world)
ack_job-Acknowledges_example =
    ack_job-Acknowledges clock surroundings between (λ k db. refl) "a" world
