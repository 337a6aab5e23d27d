-- ===== src/Tests/Store.antt =====
-- The store's theorems on a table of two jobs.
use local_transcription_serv.Prelude.{
  true, none, some, List, [], ◌∷◌, ◌≡◌, ◌⊎◌, refl, arith, text_eq, All,
}
use local_transcription_serv.Models.{Row, Job, JobError, zone, at_utc, iso_text}
use local_transcription_serv.Models.Status.{queued, claimed}
use local_transcription_serv.Store.Table.{Db, find_row, column_eq}
use local_transcription_serv.Store.Claim.{claim_update, first_eligible}
use local_transcription_serv.Store.Claim.Order.{Chosen}
use local_transcription_serv.Prelude.{◌≤◌, ◌+◌}
use local_transcription_serv.Store.Once.{count_ops, ends, first_acks, ends_once}
use local_transcription_serv.Store.History.{
  Op, submits, claims, starts, finishes, acks, defers, reclaims, apply, run,
}
use local_transcription_serv.Store.Refinement.{Moves, move, chosen_by, apply-Moves}
use local_transcription_serv.Store.Exclusive.{Claims, Found, claim_update-Claims}
use local_transcription_serv.Store.Begun.{attempts, pending, begins, begun_bounds}
use local_transcription_serv.Store.Lease.{IsPowerless, lease_lasts}
use local_transcription_serv.Store.Transitions.{reclaim_expired}
use local_transcription_serv.Store.Stuck.{IsFree, none_stuck}
use local_transcription_serv.Store.Invariant.{IsValid, run-IsValid}
use local_transcription_serv.Store.Lifecycle.{Survives, run-Survives}
use local_transcription_serv.Store.Keyed.{UniqueIds}
use local_transcription_serv.Store.Stamps.{claim_in_order}
use local_transcription_serv.Tests.Clock.{clock, clock-IsLawful}

abbrev pub waiting_row : Row
waiting_row = record {
  job_id = "b";
  video_url = "https://youtu.be/b";
  status = queued;
  attempt = 0;
  lease_token = none;
  lease_expires_at = none;
  next_retry_at = none;
  created_at = "zzu";
  started_at = none;
  finished_at = none;
  transcript_path = none;
  error_code = none;
  error_message = none;
  error_retryable = none;
  acked_at = none;
}

abbrev pub leased_row : Row
leased_row = record waiting_row {
  job_id = "a";
  status = claimed;
  attempt = 1;
  lease_token = some "t";
  lease_expires_at = some "zzzzzu";
  created_at = "zu";
}

abbrev pub table : Db
table = leased_row ∷ waiting_row ∷ []

abbrev history : List Op
history =
    submits 1 "x" "https://youtu.be/a" (some "a")
    ∷ submits 2 "b" "https://youtu.be/b" none
    ∷ claims 3 4 "t"
    ∷ starts 4 "a" "t"
    ∷ finishes 5 "a" "t" "results/a.md"
    ∷ acks 6 "a"
    ∷ []

apply-Moves_example :
    Moves "a"
      (apply clock (starts 4 "a" "t") table)
      (move clock (starts 4 "a" "t") (chosen_by clock (starts 4 "a" "t") table) "a" none)
      leased_row
unfolding find_row text_eq
apply-Moves_example = apply-Moves clock "a" (starts 4 "a" "t") table leased_row refl

claim_in_order_example :
    let chosen = first_eligible (iso_text clock (at_utc 3)) (run clock history []) in
    Chosen clock 3 (run clock history []) chosen × Found (run clock history []) chosen
claim_in_order_example = claim_in_order clock clock-IsLawful history 3

unique : UniqueIds table
unfolding find_row text_eq
unique = (refl, (refl, tt))

claim_update-Claims_example : Claims clock 3 4 "u" table (claim_update clock 3 4 "u" table)
claim_update-Claims_example = claim_update-Claims clock 3 4 "u" table unique

abbrev no_space : JobError
no_space = record { code = "NO_SPACE"; message = some "disk full"; retryable = true }

-- The lease runs out, and another worker claims the job and defers it.
abbrev expired : List Op
expired = starts 4 "a" "t" ∷ reclaims 9 ∷ claims 10 4 "u" ∷ defers "a" "u" 12 ∷ []

lease_lasts_example :
    ((s : Row) × (find_row "a" (run clock expired table) ≡ some s)
      × (s.attempt ≡ 1)
      × (column_eq s.lease_token "t" ≡ true)
      × (column_eq leased_row.lease_token "t" ≡ true))
    ⊎ IsPowerless "t" clock "a" (run clock expired table)
unfolding find_row text_eq
lease_lasts_example =
    lease_lasts "t" clock "a" expired (refl, (refl, (refl, (refl, tt)))) table leased_row unique
      refl

valid : All IsValid table
valid = (
  record {
    leased = refl;
    expires = refl;
    error = refl;
    retryable = refl;
    finished = refl;
    started = refl;
    started_done = refl;
    transcript = refl;
    acked = refl;
    attempted = refl;
  },
  (
    record {
      leased = refl;
      expires = refl;
      error = refl;
      retryable = refl;
      finished = refl;
      started = refl;
      started_done = refl;
      transcript = refl;
      acked = refl;
      attempted = refl;
    },
    tt,
  ),
)

run-IsValid_example : All IsValid (run clock history table)
run-IsValid_example = run-IsValid clock history table valid

run-Survives_example : Survives "a" table (run clock history table) leased_row
unfolding find_row text_eq
run-Survives_example = run-Survives clock "a" history table leased_row refl

abbrev deferred_job : Job
deferred_job = record {
  job_id = "a";
  video_url = "https://youtu.be/a";
  status = queued;
  attempt = 2;
  created_at = at_utc 1;
  started_at = some (record { clock = 2; tzinfo = some (zone "CET") });
  finished_at = none;
  lease_token = none;
  lease_expires_at = none;
  next_retry_at = some (record { clock = 5; tzinfo = none });
  transcript_path = none;
  error = some no_space;
  acked_at = none;
}

-- A second worker and a second client come too late.
abbrev repeated : List Op
repeated =
    starts 4 "a" "t"
    ∷ finishes 5 "a" "t" "results/a.md"
    ∷ finishes 6 "a" "t" "results/a.md"
    ∷ acks 7 "a"
    ∷ acks 8 "a"
    ∷ []

ends_once_example :
    (count_ops clock (ends clock "a") repeated table ≤ 1)
    × (count_ops clock (first_acks clock "a") repeated table ≤ 1)
ends_once_example = ends_once clock "a" repeated table unique

-- The worker is gone after it has begun the job.
abbrev broken_off : List Op
broken_off =
    submits 1 "x" "https://youtu.be/a" (some "a")
    ∷ submits 2 "b" "https://youtu.be/b" none
    ∷ claims 3 4 "t"
    ∷ starts 4 "a" "t"
    ∷ []

none_stuck_example : All IsFree (reclaim_expired clock 5000000 (run clock broken_off [])).0
none_stuck_example =
    none_stuck clock 5000000 clock-IsLawful broken_off (tt, (tt, (omega arith, (tt, tt))))

begun_bounds_example :
    count_ops clock (begins clock "a") repeated table
      + attempts "a" table
      + pending "a" (run clock repeated table)
    ≤ attempts "a" (run clock repeated table) + pending "a" table
begun_bounds_example = begun_bounds clock "a" repeated table unique
