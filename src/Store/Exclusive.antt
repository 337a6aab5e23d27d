-- ===== src/Store/Exclusive.antt =====
-- Leases: what a claim of src/local_transcription_service/queue/store.py hands out, and what the
-- transitions do for a worker without the token.
use mathlib.Core.Option
use local_transcription_serv.Prelude.{
  ℕ, ◌+◌, String, Bool, true, false, Option, none, some, [], ◌∷◌, ◌≡◌, ◌≢◌, refl, ◌∙◌, arith, ap,
  subst, Bool-cases, Option-cases, inl, inr, text_eq, text_eq_iff, text_eq_self, text_eq_ne, sym,
  ◌⊎◌,
}
use local_transcription_serv.Models.{
  Calendar, JobError, DateTime, Row, at_utc, iso_text, microseconds,
}
use local_transcription_serv.Models.Status.{is_queued}
use local_transcription_serv.Store.Table.{Db, find_row, column_eq, update_rows}
use local_transcription_serv.Store.Claim.{
  first_eligible, claim_update, claimed_by, may_claim, eligible,
}
use local_transcription_serv.Store.Claim.Order.{first_eligible_cases}
use local_transcription_serv.Store.Keyed.{
  UniqueIds, updated, find_row-job_id, find_row-update_rows, update_one-refuses,
}
use local_transcription_serv.Store.Transitions.{
  mark_processing, mark_done, mark_failed, defer_retry,
}

-- A row of the table that waits, if there is one.
abbrev pub Found : Db → Option Row → Type 0
Found db none = Unit {0}
Found db (some r) = (find_row r.job_id db ≡ some r) × (is_queued r.status ≡ true)

Found-cons :
    (s : Row) (db : Db) (o : Option Row)
    → find_row s.job_id db ≡ none
    → Found db o
    → Found (s ∷ db) o
unfolding find_row
Found-cons s db none u h = tt
Found-cons s db (some r) u h = elim (Bool-cases (text_eq s.job_id r.job_id)) [
  | inl e ↦ absurd (clash ((text_eq_iff _ _).0 e))
  | inr e ↦ (rw e h.0, h.1)
]
  where
    clash : s.job_id ≡ r.job_id → ⊥
    clash e = cc

-- The subquery returns a job of the table, one that waits.
pub first_eligible-Found :
    (now : String) (db : Db) → UniqueIds db → Found db (first_eligible now db)
unfolding first_eligible find_row eligible
first_eligible-Found now [] u = tt
first_eligible-Found now (s ∷ db) u =
    let rest = first_eligible-Found now db u.1 in
    first_eligible_cases (Found (s ∷ db)) now s db (λ f. Found-cons s db _ u.0 rest)
      (λ f e. (rw (text_eq_self s.job_id), ground arith))
      (λ t f e p. Found-cons s db (some t) u.0 (subst (Found db) e rest))
      (λ t f e p. (rw (text_eq_self s.job_id), ground arith))

abbrev pub expiry : Calendar → ℕ → ℕ → String
expiry c now ttl = iso_text c (at_utc (now + microseconds ttl))

-- What a claim returns, and the table that it leaves.
abbrev pub Claims : Calendar → ℕ → ℕ → String → Db → Db × Option String → Type 0
Claims c now ttl token db (db', none) = db' ≡ db
Claims c now ttl token db (db', some id) =
    (r : Row) × (find_row id db ≡ some r)
    × (is_queued r.status ≡ true)
    × (find_row id db' ≡ some (claimed_by token (expiry c now ttl) r))
    × ((j : String) → j ≢ id → find_row j db' ≡ find_row j db)

module _ (c : Calendar) (now ttl : ℕ) (token : String) (db : Db) where
  claim_update-Claims-some :
      (r : Row)
      → (find_row r.job_id db ≡ some r) × (is_queued r.status ≡ true)
      → Claims c now ttl token db
          (update_rows (may_claim r.job_id) (claimed_by token (expiry c now ttl)) db, some r.job_id)
  claim_update-Claims-some r (e, q) = (
    r,
    e,
    q,
    find_row-update_rows test change (λ s. refl) r.job_id db
        ∙ ap (Option.map (updated test change)) e
        ∙ rw (text_eq_self r.job_id, q),
    λ j ne.
        find_row-update_rows test change (λ s. refl) j db
        ∙ other j ne (Option-cases (find_row j db)),
  )
    where
      test : Row → Bool
      test = may_claim r.job_id

      change : Row → Row
      change = claimed_by token (expiry c now ttl)

      other :
          (j : String)
          → j ≢ r.job_id
          → (find_row j db ≡ none) ⊎ ((s : Row) × (find_row j db ≡ some s))
          → Option.map (updated test change) (find_row j db) ≡ find_row j db
      other j ne (inl e) = simp e
      other j ne (inr (s, e)) =
          simp e (rw (text_eq_ne s.job_id r.job_id (λ f. ne (sym (find_row-job_id j db e) ∙ f))))

  -- If no two jobs share a key, a claim hands out a job that was waiting, under the caller's token
  -- and expiry and with one attempt more, and leaves every other job alone; a claim that finds
  -- none changes nothing.
  pub claim_update-Claims :
      UniqueIds db → Claims c now ttl token db (claim_update c now ttl token db)
  unfolding claim_update
  claim_update-Claims u = elim (Option-cases (first_eligible (iso_text c (at_utc now)) db)) [
    | inl e ↦ rw (e, claim_update) refl
    | inr (r, e) ↦
        rw (e, claim_update)
          (claim_update-Claims-some r
            (subst (Found db) e (first_eligible-Found (iso_text c (at_utc now)) db u)))
  ]

-- If no two jobs share a key, the four transitions of a worker that does not hold the job's lease
-- token write nothing and return False.
pub fenced :
    (c : Calendar) (now : ℕ) (id token path : String) (error : JobError) (at : DateTime) (db : Db)
    (r : Row)
    → UniqueIds db
    → find_row id db ≡ some r
    → column_eq r.lease_token token ≡ false
    → (mark_processing c now id token db ≡ (db, false))
      × (mark_done c now id token path db ≡ (db, false))
      × (mark_failed c now id token error db ≡ (db, false))
      × (defer_retry c id token at db ≡ (db, false))
unfolding mark_processing mark_done mark_failed defer_retry
fenced c now id token path error at db r u e lost = (
  update_one-refuses id _ _ db u e (ground arith),
  update_one-refuses id _ _ db u e (ground arith),
  update_one-refuses id _ _ db u e (ground arith),
  update_one-refuses id _ _ db u e (ground arith),
)
