-- ===== src/Worker/Alone.antt =====
-- A table with one job, as the claim and the worker of src/local_transcription_service/worker.py
-- find it.
use local_transcription_serv.Prelude.{
  ℕ, ◌+◌, ◌≤◌, ◌<◌, String, Bool, true, false, Option, none, some, List, [], ◌∷◌, ◌≡◌, refl, ap,
  ◌∙◌, length, text_le, is_le, arith,
}
use local_transcription_serv.FileWrite.{written}
use local_transcription_serv.Models.{
  Calendar, IsLawful, DateTime, Job, Row, at_utc, iso_text, iso, aware, microseconds, to_row,
}
use local_transcription_serv.Models.Status.{queued, is_queued}
use local_transcription_serv.Store.Table.{Db, find_row, update_rows}
use local_transcription_serv.Store.Claim.{eligible, arrived, first_eligible}
use local_transcription_serv.Store.Transitions.{
  update_one, mark_processing, mark_done, mark_failed, defer_retry, started, deferred_to,
}
use local_transcription_serv.Store.History.{
  Op, submits, claims, starts, finishes, fails, defers, acks, moves, reclaims, apply, claims_cases,
}
use local_transcription_serv.Worker.{WorkerSettings, Surroundings, result_path}
use local_transcription_serv.Worker.Keeps.{is_workers}
use local_transcription_serv.Worker.Settles.{delivers, retries, breaks, on_answer, verdict}
use local_transcription_serv.Pipeline.{Result, ok, raises}
use local_transcription_serv.Worker.Iteration.{held, held_row}

length-update_rows :
    (test : Row → Bool) (change : Row → Row) (db : Db)
    → length (update_rows test change db) ≡ length db
unfolding update_rows
length-update_rows test change [] = refl
length-update_rows test change (r ∷ db) = omega (arith, length-update_rows test change db)

-- The operations of a worker add no row and take none away.
pub length-apply :
    (c : Calendar) (n : ℕ) (op : Op) (db : Db)
    → is_workers op ≡ true
    → length db ≡ n
    → length (apply c op db) ≡ n
unfolding apply update_one mark_processing mark_done mark_failed defer_retry
length-apply c n (claims now ttl token) db h e =
    claims_cases c (λ (x : Db). length x ≡ n) db now ttl token e
      (λ r _. length-update_rows _ _ db ∙ e)
length-apply c n (starts now id token) db h e = length-update_rows _ _ db ∙ e
length-apply c n (finishes now id token path) db h e = length-update_rows _ _ db ∙ e
length-apply c n (fails now id token error) db h e = length-update_rows _ _ db ∙ e
length-apply c n (defers id token at) db h e = length-update_rows _ _ db ∙ e
length-apply c n (submits now token url job_id) db h e = cc
length-apply c n (acks now id) db h e = cc
length-apply c n (moves id path) db h e = cc
length-apply c n (reclaims now) db h e = cc

-- A table with one row that is found is that row alone.
pub alone :
    (id : String) (db : Db) (r : Row) → length db ≡ 1 → find_row id db ≡ some r → db ≡ r ∷ []
unfolding find_row
alone id [] r n e = cc
alone id (s ∷ []) r n e = ground arith
alone id (s ∷ t ∷ db) r n e = absurd (omega (arith, n))

-- Surroundings in which nobody else writes, the database refuses nothing and the result file can be
-- written.
pub record Undisturbed (e : Surroundings) : Type 0 where
  pub quiet : (k : ℕ) (db : Db) → e.others k db ≡ db
  pub served : (k : ℕ) → e.refused k ≡ false
  pub writable : (path text : String) → e.write path text ≡ written

-- Each round begins when the backoff of the round before is over, the first one at a time.
abbrev pub Spaced : WorkerSettings → ℕ → List Surroundings → Type 0
Spaced s t [] = Unit {0}
Spaced s t (e ∷ rounds) =
    (t ≤ e.clock 0) × Spaced s (e.clock 3 + microseconds s.retry_backoff_seconds) rounds

-- A time in UTC that comes no later than another.
abbrev pub DueBy : ℕ → Option DateTime → Type 0
DueBy t none = Unit {0}
DueBy t (some d) = (u : ℕ) × (d ≡ at_utc u) × (u ≤ t)

-- The job waits in the queue, and for no retry time after a time.
abbrev pub Waits : ℕ → Job → Type 0
Waits t j = (is_queued j.status ≡ true) × DueBy t j.next_retry_at

module _ (c : Calendar) (s : WorkerSettings) where
  -- The job after an attempt that is deferred.
  abbrev pub deferred : Surroundings → Job → Job
  deferred e j = record j {
    status = queued;
    attempt = j.attempt + 1;
    lease_token = none;
    lease_expires_at = none;
    next_retry_at = some (at_utc (e.clock 3 + microseconds s.retry_backoff_seconds));
    started_at = some (at_utc (e.clock 2));
  }

  pub deferred-row :
      (e : Surroundings) (j : Job)
      → deferred_to c
          (at_utc (e.clock 3 + microseconds s.retry_backoff_seconds))
          (started c (e.clock 2) (held_row c s e j))
        ≡ to_row c (deferred e j)
  unfolding to_row iso
  deferred-row e j = refl

  arrived_in_time :
      IsLawful c
      → (t now : ℕ) (o : Option DateTime) → DueBy t o
      → t ≤ now
      → arrived (iso c o) (iso_text c (at_utc now)) ≡ true
  unfolding iso text_le iso_text aware
  arrived_in_time L t now none w h = refl
  arrived_in_time L t now (some d) (u, at, le) h =
      ap (λ (x : DateTime). text_le (iso_text c x) (iso_text c (at_utc now))) at
      ∙ ap is_le (L.compare-iso u now)
      ∙ ground arith

  pub first_eligible-alone :
      IsLawful c
      → (j : Job) (t now : ℕ) → Waits t j
      → t ≤ now
      → first_eligible (iso_text c (at_utc now)) (to_row c j ∷ []) ≡ some (to_row c j)
  unfolding first_eligible eligible to_row
  first_eligible-alone L j t now w h =
      rw (w.0, arrived_in_time L t now j.next_retry_at w.1 h, eligible) refl

  pub verdict-retries :
      (e : Surroundings) (j : Job)
      → verdict c s e (held c s e j) (held_row c s e j) ≡ retries
      → j.attempt + 1 < s.max_attempts
  verdict-retries e j h = ground arith

  on_answer-breaks :
      (e : Surroundings) (j : Job) (q : Row) (res : Result String) (left : Option String)
      → Undisturbed e
      → on_answer c s e j q res ≡ breaks left
      → ⊥
  on_answer-breaks e j q (ok text) left u h =
      let other : delivers text ≡ breaks left =
        rw (u.writable (result_path s j.job_id) text) at h in
      cc
  on_answer-breaks e j q (raises exc) left u h = ground arith

  pub verdict-breaks :
      (e : Surroundings) (j : Job) (left : Option String)
      → Undisturbed e
      → verdict c s e (held c s e j) (held_row c s e j) ≡ breaks left
      → ⊥
  verdict-breaks e j left u h = ground (
    arith,
    on_answer-breaks e (held c s e j) (started c (e.clock 2) (held_row c s e j))
        (e.transcribe j.video_url j.job_id) left u,
  )
