-- ===== src/Store/Refinement.antt =====
-- The lifecycle that a client of `JobStore` thinks in (the state machine of `JobStatus` in
-- src/local_transcription_service/models.py), against the operations on the table.
use mathlib.Core.Option
use local_transcription_serv.Prelude.{
  ℕ, ◌+◌, String, Bool, Option, none, some, ◌≡◌, refl, ◌∙◌, ap, arith, if◌then◌else◌, Option-cases,
  inl, inr, text_eq, text_eq_iff,
}
use local_transcription_serv.Models.{Calendar, Row, at_utc, iso_text, microseconds}
use local_transcription_serv.Models.Status.{JobStatus, queued, claimed, processing, done, failed}
use local_transcription_serv.Store.Table.{Db, column_eq, find_row, update_rows}
use local_transcription_serv.Store.Claim.{first_eligible, claimed_by, claim_update, may_claim}
use local_transcription_serv.Store.Keyed.{KeepsId, updated, find_row-update_rows, find_row-job_id}
use local_transcription_serv.Store.Lifecycle.{find_row-append}
use local_transcription_serv.Store.Transitions.{
  update_one, mark_processing, mark_done, mark_failed, defer_retry, ack_update,
  update_transcript_path, reclaim_expired, expired_by,
}
use local_transcription_serv.Store.History.{
  Op, submits, claims, starts, finishes, fails, defers, acks, moves, reclaims, apply, submits_cases,
}

-- A lease: its token and its expiry.
pub record Lease : Type 0 where
  pub token : Option String
  pub expires : Option String

-- Where a job stands. The number counts the claims so far, the first text is the retry time.
pub data Phase : Type 0 where
  waiting : ℕ → Option String → Phase
  held : ℕ → Option String → Lease → Phase
  running : ℕ → Option String → Lease → Phase
  succeeded : Option String → Option String → Phase
  broken : Option String → Phase

abbrev pub phase_at : JobStatus → Row → Phase
phase_at queued r = waiting r.attempt r.next_retry_at
phase_at claimed r =
    held r.attempt r.next_retry_at (record { token = r.lease_token; expires = r.lease_expires_at })
phase_at processing r =
    running r.attempt r.next_retry_at
      (record { token = r.lease_token; expires = r.lease_expires_at })
phase_at done r = succeeded r.transcript_path r.acked_at
phase_at failed r = broken r.error_code

abbrev pub phase : Row → Phase
phase r = phase_at r.status r

-- The client's moves. None of them leaves `succeeded` or `broken`.
abbrev pub claim_move : String → String → Phase → Phase
claim_move token expires (waiting n at) =
    held (n + 1) at (record { token = some token; expires = some expires })
claim_move token expires p = p

abbrev pub start_move : String → Phase → Phase
start_move token (held n at l) = if column_eq l.token token then running n at l else held n at l
start_move token p = p

abbrev pub finish_move : String → String → Option String → Phase → Phase
finish_move token path acked (running n at l) =
    if column_eq l.token token then succeeded (some path) acked else running n at l
finish_move token path acked p = p

abbrev pub fail_move : String → String → Phase → Phase
fail_move token code (held n at l) =
    if column_eq l.token token then broken (some code) else held n at l
fail_move token code (running n at l) =
    if column_eq l.token token then broken (some code) else running n at l
fail_move token code p = p

abbrev pub defer_move : String → String → Phase → Phase
defer_move token retry (held n at l) =
    if column_eq l.token token then waiting n (some retry) else held n at l
defer_move token retry (running n at l) =
    if column_eq l.token token then waiting n (some retry) else running n at l
defer_move token retry p = p

abbrev pub ack_move : String → Phase → Phase
ack_move now (succeeded path none) = succeeded path (some now)
ack_move now p = p

abbrev pub path_move : String → Phase → Phase
path_move path (succeeded old acked) = succeeded (some path) acked
path_move path p = p

abbrev pub reclaim_move : String → Phase → Phase
reclaim_move now (held n at l) = if expired_by now l.expires then waiting n at else held n at l
reclaim_move now (running n at l) =
    if expired_by now l.expires then waiting n at else running n at l
reclaim_move now p = p

module _ (c : Calendar) where
  -- What an operation on the store does to the job `id`. `chosen` is the job that a claim returns.
  abbrev pub move : Op → Option String → String → Option String → Phase → Phase
  move (submits now token url job_id) chosen id acked p = p
  move (claims now ttl token) chosen id acked p =
      if column_eq chosen id
      then claim_move token (iso_text c (at_utc (now + microseconds ttl))) p
      else p
  move (starts now key token) chosen id acked p = if text_eq id key then start_move token p else p
  move (finishes now key token path) chosen id acked p =
      if text_eq id key then finish_move token path acked p else p
  move (fails now key token error) chosen id acked p =
      if text_eq id key then fail_move token error.code p else p
  move (defers key token at) chosen id acked p =
      if text_eq id key then defer_move token (iso_text c (at_utc at)) p else p
  move (acks now key) chosen id acked p =
      if text_eq id key then ack_move (iso_text c (at_utc now)) p else p
  move (moves key path) chosen id acked p = if text_eq id key then path_move path p else p
  move (reclaims now) chosen id acked p = reclaim_move (iso_text c (at_utc now)) p

  -- The job that a claim returns.
  abbrev pub chosen_by : Op → Db → Option String
  chosen_by (claims now ttl token) db = (claim_update c now ttl token db).1
  chosen_by _ db = none

abbrev pub Moves : String → Db → (Phase → Phase) → Row → Type 0
Moves id db' f r = (s : Row) × (find_row id db' ≡ some s) × (phase s ≡ f (phase r))

Moves-update_rows :
    (test : Row → Bool) (change : Row → Row) (f : Phase → Phase)
    → KeepsId change
    → (id : String) (db : Db) (r : Row) → find_row id db ≡ some r
    → phase (updated test change r) ≡ f (phase r)
    → Moves id (update_rows test change db) f r
Moves-update_rows test change f keeps id db r e h = (
  updated test change r,
  find_row-update_rows test change keeps id db ∙ ap (Option.map (updated test change)) e,
  h,
)

-- The two parts of a claim's result: the table and the job that it returns.
abbrev ClaimMoves : String → (Phase → Phase) → Row → Db × Option String → Type 0
ClaimMoves id f r (db', chosen) = Moves id db' (λ p. if column_eq chosen id then f p else p) r

claim_update-Moves :
    (c : Calendar) (id : String) (now ttl : ℕ) (token : String) (db : Db) (r : Row)
    → find_row id db ≡ some r
    → ClaimMoves id
        (claim_move token (iso_text c (at_utc (now + microseconds ttl))))
        r
        (claim_update c now ttl token db)
unfolding claim_update
claim_update-Moves c id now ttl token db r e =
    elim (Option-cases (first_eligible (iso_text c (at_utc now)) db)) [
      | inl f ↦ rw (f, claim_update) (r, e, refl)
      | inr (s, f) ↦
          rw (f, claim_update)
            (Moves-update_rows (may_claim s.job_id)
              (claimed_by token (iso_text c (at_utc (now + microseconds ttl))))
              (λ p.
                if text_eq s.job_id id
                then claim_move token (iso_text c (at_utc (now + microseconds ttl))) p
                else p)
              (λ q. refl) id db r e (claimed_phase s))
    ]
  where
    claimed_phase :
        (s : Row)
        → phase (
            updated
              (may_claim s.job_id)
              (claimed_by token (iso_text c (at_utc (now + microseconds ttl))))
              r)
          ≡ (if text_eq s.job_id id
              then claim_move token (iso_text c (at_utc (now + microseconds ttl))) (phase r)
              else phase r)
    claimed_phase s =
        ground
          (arith, find_row-job_id id db e, text_eq_iff s.job_id id, text_eq_iff r.job_id s.job_id)

module _ (c : Calendar) (id : String) where
  -- Each operation of the store moves the phase of each job that is in the table by that
  -- operation's move of the lifecycle, and in no other way: a claim moves the job that it returns.
  pub apply-Moves :
      (op : Op) (db : Db) (r : Row)
      → find_row id db ≡ some r
      → Moves id (apply c op db) (move c op (chosen_by c op db) id r.acked_at) r
  unfolding apply update_one mark_processing mark_done mark_failed defer_retry ack_update
      update_transcript_path reclaim_expired
  apply-Moves (submits now token url job_id) db r e =
      submits_cases c (λ db'. Moves id db' (λ p. p) r) db now token url job_id (r, e, refl)
        (λ _. (r, find_row-append id db _ r e, refl))
  apply-Moves (claims now ttl token) db r e = claim_update-Moves c id now ttl token db r e
  apply-Moves (starts now key token) db r e =
      Moves-update_rows _ _ (move c (starts now key token) none id r.acked_at) (λ q. refl) id db r e
        (ground (arith, find_row-job_id id db e))
  apply-Moves (finishes now key token path) db r e =
      Moves-update_rows _ _ (move c (finishes now key token path) none id r.acked_at) (λ q. refl) id
        db r e (ground (arith, find_row-job_id id db e))
  apply-Moves (fails now key token error) db r e =
      Moves-update_rows _ _ (move c (fails now key token error) none id r.acked_at) (λ q. refl) id
        db r e (ground (arith, find_row-job_id id db e))
  apply-Moves (defers key token at) db r e =
      Moves-update_rows _ _ (move c (defers key token at) none id r.acked_at) (λ q. refl) id db r e
        (ground (arith, find_row-job_id id db e))
  apply-Moves (acks now key) db r e =
      Moves-update_rows _ _ (move c (acks now key) none id r.acked_at) (λ q. refl) id db r e
        (ground (arith, find_row-job_id id db e))
  apply-Moves (moves key path) db r e =
      Moves-update_rows _ _ (move c (moves key path) none id r.acked_at) (λ q. refl) id db r e
        (ground (arith, find_row-job_id id db e))
  apply-Moves (reclaims now) db r e =
      Moves-update_rows _ _ (move c (reclaims now) none id r.acked_at) (λ q. refl) id db r e
        (ground (arith, find_row-job_id id db e))
