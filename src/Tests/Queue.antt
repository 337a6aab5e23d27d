-- ===== src/Tests/Queue.antt =====
-- The theorems on the queries and on the reclaim loop at concrete inputs.
use local_transcription_serv.Prelude.{true, false, some, List, [], ◌∷◌, ◌≡◌, refl, is_some, text_eq}
use local_transcription_serv.Models.{Job, Row, to_row, iso_text, at_utc}
use local_transcription_serv.Models.Status.{queued}
use local_transcription_serv.Store.Table.{Db, find_row}
use local_transcription_serv.Store.Claim.{claim_update}
use local_transcription_serv.Store.Queries.{list_by_status}
use local_transcription_serv.Store.History.{Op, submits, claims, run}
use local_transcription_serv.Store.Oldest.{Lists, list_by_status-Lists}
use local_transcription_serv.Store.Transitions.{mark_done, reclaimed}
use local_transcription_serv.Worker.Loops.{Round, reclaim_loop, claim_loop}
use local_transcription_serv.Worker.Recovery.{reclaim_loop_recovers}
use local_transcription_serv.Tests.Clock.{clock, clock-IsLawful}
use local_transcription_serv.Tests.Store.{leased_row}
use local_transcription_serv.Tests.Service.{waiting_job, quiet, settings}
use local_transcription_serv.Worker.{World, Surroundings}
use local_transcription_serv.Worker.Alone.{Undisturbed}
use local_transcription_serv.Worker.Ends.{Ended, claim_loop_ends}
use local_transcription_serv.Prelude.{ℕ, none, ◌+◌, arith}

abbrev three_jobs : List Op
three_jobs =
    submits 5 "x" "https://youtu.be/a" (some "a")
    ∷ submits 3 "y" "https://youtu.be/b" (some "b")
    ∷ submits 4 "z" "https://youtu.be/c" (some "c")
    ∷ claims 6 9 "t"
    ∷ []

list_by_status-Lists_example :
    (jobs : List Job) × (list_by_status clock queued 1 (run clock three_jobs []) ≡ some jobs)
    × Lists clock queued 1 (run clock three_jobs []) jobs
list_by_status-Lists_example = list_by_status-Lists clock clock-IsLawful queued 1 three_jobs

abbrev waiting : Db
waiting = to_row clock waiting_job ∷ []

abbrev abandoned_row : Row
abandoned_row = record leased_row { lease_expires_at = some (iso_text clock (at_utc 5)) }

abbrev round : Round
round = record { others = λ db. db; now = 7; raises = false }

reclaim_loop_recovers_example :
    let after = reclaim_loop clock (round ∷ []) (abandoned_row ∷ []) in
    (find_row "a" after ≡ some (reclaimed abandoned_row))
    × (is_some (claim_update clock 8 1 "new" after).1 ≡ true)
    × (mark_done clock 9 "a" "t" "results/a.md" after ≡ (after, false))
unfolding find_row text_eq
reclaim_loop_recovers_example =
    reclaim_loop_recovers clock clock-IsLawful "a" "t" "new" "results/a.md" abandoned_row 5 8 9 1
      (round ∷ []) (abandoned_row ∷ []) (refl, tt) refl refl refl (λ db. refl, tt) refl refl

-- Rounds that are two seconds apart.
abbrev round_at : ℕ → Surroundings
round_at n = record quiet { clock = λ k. n + k }

calm : (n : ℕ) → Undisturbed (round_at n)
calm n = record { quiet = λ k db. refl; served = λ k. refl; writable = λ path text. refl }

abbrev waiting_world : World
waiting_world = record {
  db = waiting;
  files = λ path. none;
  error_rate_counter = none;
  completed = [];
  transcribed = [];
}

abbrev three_rounds : List Surroundings
three_rounds = round_at 0 ∷ round_at 2000000 ∷ round_at 4000000 ∷ []

claim_loop_ends_example : Ended "a" (claim_loop clock settings three_rounds waiting_world).0.db
claim_loop_ends_example =
    claim_loop_ends clock settings clock-IsLawful three_rounds waiting_job waiting_world 0
      (calm 0, (calm 2000000, (calm 4000000, tt))) (omega arith) refl (refl, tt) (omega arith)
      (omega arith)
