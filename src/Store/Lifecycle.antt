-- ===== src/Store/Lifecycle.antt =====
-- What a history of store operations can do to one job.
use mathlib.Core.Option
use local_transcription_serv.Prelude.{
  ◌≤◌, String, Bool, true, some, List, [], ◌∷◌, ◌++◌, ◌≡◌, refl, ◌∙◌, ap, is_some, arith,
  if◌then◌else◌, Bool-cases, inl, inr,
}
use local_transcription_serv.Models.{Calendar, Row}
use local_transcription_serv.Models.Status.{is_terminal}
use local_transcription_serv.Store.Table.{Db, find_row, update_rows}
use local_transcription_serv.Store.Submit.{submit}
use local_transcription_serv.Store.Claim.{claim_update}
use local_transcription_serv.Store.Keyed.{KeepsId, updated, find_row-update_rows}
use local_transcription_serv.Store.Transitions.{
  update_one, mark_processing, mark_done, mark_failed, defer_retry, ack_update,
  update_transcript_path, reclaim_expired,
}
use local_transcription_serv.Store.History.{
  Op, submits, claims, starts, finishes, fails, defers, acks, moves, reclaims, apply, run,
  submits_cases, claims_cases,
}

-- A later state of the same job: its identity stays, the attempts never fall, a terminal job keeps
-- its state, its attempts, its end and its error, and an acknowledged one the time of that.
pub record Follows (r s : Row) : Type 0 where
  pub job_id : s.job_id ≡ r.job_id
  pub video_url : s.video_url ≡ r.video_url
  pub created : s.created_at ≡ r.created_at
  pub attempts : r.attempt ≤ s.attempt
  pub terminal : (if is_terminal r.status then s.status else r.status) ≡ r.status
  pub terminal_attempt : (if is_terminal r.status then s.attempt else r.attempt) ≡ r.attempt
  pub terminal_end : (if is_terminal r.status then s.finished_at else r.finished_at) ≡ r.finished_at
  pub terminal_error : (if is_terminal r.status then s.error_code else r.error_code) ≡ r.error_code
  pub acked : (if is_some r.acked_at then s.acked_at else r.acked_at) ≡ r.acked_at

Follows-refl : (r : Row) → Follows r r
Follows-refl r = ground arith

Follows-trans : (r s t : Row) → Follows r s → Follows s t → Follows r t
Follows-trans r s t f g = ground arith

-- The job under a key is still there, and follows from what it was.
abbrev pub Survives : String → Db → Db → Row → Type 0
Survives id db db' r = (s : Row) × (find_row id db' ≡ some s) × Follows r s

Survives-update_rows :
    (test : Row → Bool) (change : Row → Row)
    → KeepsId change
    → ((r : Row) → test r ≡ true → Follows r (change r))
    → (id : String) (db : Db) (r : Row) → find_row id db ≡ some r
    → Survives id db (update_rows test change db) r
Survives-update_rows test change keeps follows id db r e = (
  updated test change r,
  find_row-update_rows test change keeps id db ∙ ap (Option.map (updated test change)) e,
  elim (Bool-cases (test r)) [ inl f ↦ rw f (follows r f) | inr f ↦ rw f (Follows-refl r) ],
)

pub find_row-append :
    (id : String) (db rest : Db) (r : Row)
    → find_row id db ≡ some r
    → find_row id (db ++ rest) ≡ some r
unfolding find_row
find_row-append id [] rest r e = ground arith
find_row-append id (s ∷ db) rest r e = ground (arith, find_row-append id db rest r)

module _ (c : Calendar) (id : String) where
  -- No operation loses a job, reopens a terminal one or takes an acknowledgement back.
  pub apply-Survives :
      (op : Op) (db : Db) (r : Row) → find_row id db ≡ some r → Survives id db (apply c op db) r
  unfolding apply submit claim_update update_one mark_processing mark_done mark_failed defer_retry
      ack_update update_transcript_path reclaim_expired
  apply-Survives (submits now token url job_id) db r e =
      submits_cases c (λ db'. Survives id db db' r) db now token url job_id (r, e, Follows-refl r)
        (λ _. (r, find_row-append id db _ r e, Follows-refl r))
  apply-Survives (claims now ttl token) db r e =
      claims_cases c (λ db'. Survives id db db' r) db now ttl token (r, e, Follows-refl r)
        (λ s _. Survives-update_rows _ _ (λ q. refl) (λ q g. ground arith) id db r e)
  apply-Survives (starts now key token) db r e =
      Survives-update_rows _ _ (λ q. refl) (λ q g. ground arith) id db r e
  apply-Survives (finishes now key token path) db r e =
      Survives-update_rows _ _ (λ q. refl) (λ q g. ground arith) id db r e
  apply-Survives (fails now key token error) db r e =
      Survives-update_rows _ _ (λ q. refl) (λ q g. ground arith) id db r e
  apply-Survives (defers key token at) db r e =
      Survives-update_rows _ _ (λ q. refl) (λ q g. ground arith) id db r e
  apply-Survives (acks now key) db r e =
      Survives-update_rows _ _ (λ q. refl) (λ q g. ground arith) id db r e
  apply-Survives (moves key path) db r e =
      Survives-update_rows _ _ (λ q. refl) (λ q g. ground arith) id db r e
  apply-Survives (reclaims now) db r e =
      Survives-update_rows _ _ (λ q. refl) (λ q g. ground arith) id db r e

  -- After any history of operations a job of the table is still there under its key: its identity
  -- is the same and its attempts are no fewer; if it was terminal, its state, attempts, end and
  -- error code are what they were, and if it was acknowledged, the time of that.
  pub run-Survives :
      (ops : List Op) (db : Db) (r : Row)
      → find_row id db ≡ some r
      → Survives id db (run c ops db) r
  unfolding run
  run-Survives [] db r e = (r, e, Follows-refl r)
  run-Survives (op ∷ ops) db r e =
      let (s, f, g) = apply-Survives op db r e in
      let (t, f', g') = run-Survives ops (apply c op db) s f in (t, f', Follows-trans r s t g g')
