-- ===== src/Store/Claim.antt =====
-- `JobStore.claim` of src/local_transcription_service/queue/store.py: the UPDATE with its subquery.
pub mod Rank
pub mod Order
use local_transcription_serv.Prelude.{
  ℕ, ◌+◌, ◌*◌, String, Bool, true, false, Option, none, some, List, [], ◌∷◌, ◌&&◌, ltb, text_eq,
  text_le, text_lt, text_compare, is_lt, order_then, is_some, if◌then◌else◌,
}
use local_transcription_serv.Models.{Calendar, Row, at_utc, iso_text, microseconds}
use local_transcription_serv.Models.Status.{claimed, is_queued}
use local_transcription_serv.Store.Table.{Db, update_rows}

-- WHERE status = 'queued' AND (next_retry_at IS NULL OR next_retry_at <= ?)
abbrev pub arrived : Option String → String → Bool
arrived none now = true
arrived (some t) now = text_le t now

unfoldable pub eligible : String → Row → Bool
eligible now r = is_queued r.status && arrived r.next_retry_at now

abbrev pub coalesce : Option String → String → String
coalesce none t = t
coalesce (some s) t = s

-- COALESCE(next_retry_at, created_at)
abbrev pub due : Row → String
due r = coalesce r.next_retry_at r.created_at

-- COALESCE(next_retry_at, created_at), created_at
abbrev pub earlier : Row → Row → Bool
earlier r s =
    is_lt (order_then (text_compare (due r) (due s)) (text_compare r.created_at s.created_at))

-- ORDER BY: deferred or not, then those times
unfoldable pub precedes : Row → Row → Bool
precedes r s =
    if is_some r.next_retry_at
    then (if is_some s.next_retry_at then earlier r s else false)
    else (if is_some s.next_retry_at then true else earlier r s)

-- The subquery: the first eligible row in that order; of two that tie, the older one.
unfoldable pub first_eligible : String → Db → Option Row
first_eligible now [] = none
first_eligible now (r ∷ db) =
    let rest = first_eligible now db in
    if eligible now r
    then elim rest [ none ↦ some r | some s ↦ if precedes s r then some s else some r ]
    else rest

-- SET status = 'claimed', lease_token = ?, lease_expires_at = ?, attempt = attempt + 1
abbrev pub claimed_by : String → String → Row → Row
claimed_by token expires r = record r {
  status = claimed;
  lease_token = some token;
  lease_expires_at = some expires;
  attempt = r.attempt + 1;
}

-- WHERE job_id = (…) AND status = 'queued'
abbrev pub may_claim : String → Row → Bool
may_claim job_id r = text_eq r.job_id job_id && is_queued r.status

module _ (c : Calendar) where
  -- The statement and its RETURNING row's id.
  unfoldable pub claim_update : ℕ → ℕ → String → Db → Db × Option String
  claim_update now lease_ttl_seconds token db = elim (first_eligible (iso_text c (at_utc now)) db) [
    | none ↦ (db, none)
    | some r ↦ (
      update_rows (may_claim r.job_id)
          (claimed_by token (iso_text c (at_utc (now + microseconds lease_ttl_seconds)))) db,
      some r.job_id,
    )
  ]
