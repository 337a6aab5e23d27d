-- ===== src/Store/Lease.antt =====
-- What a lease token is good for: the claim and the worker's transitions of
-- src/local_transcription_service/queue/store.py over a history.
use mathlib.Core.Option
use local_transcription_serv.Prelude.{
  ℕ, String, Bool, true, false, not, some, List, [], ◌∷◌, ◌&&◌, ◌≡◌, ◌⊎◌, refl, ◌∙◌, ap, arith, All,
  implies, text_eq, ◌==◌, Bool-cases, inl, inr,
}
use local_transcription_serv.Models.{Calendar, JobError, DateTime, Row}
use local_transcription_serv.Store.Table.{Db, find_row, column_eq, update_rows}
use local_transcription_serv.Store.Keyed.{KeepsId, UniqueIds, updated, find_row-update_rows}
use local_transcription_serv.Store.Lifecycle.{find_row-append}
use local_transcription_serv.Store.Stamps.{run-UniqueIds}
use local_transcription_serv.Store.Exclusive.{fenced}
use local_transcription_serv.Store.Transitions.{
  update_one, mark_processing, mark_done, mark_failed, defer_retry, ack_update,
  update_transcript_path, reclaim_expired,
}
use local_transcription_serv.Store.History.{
  Op, submits, claims, starts, finishes, fails, defers, acks, moves, reclaims, apply, run,
  submits_cases, claims_cases,
}

module _ (token : String) where
  -- The operation is no claim under the token.
  abbrev pub is_other : Op → Bool
  is_other (claims now ttl t) = not (text_eq t token)
  is_other _ = true

  -- Who holds the token now has held it since, in the same attempt.
  abbrev Since : Row → Row → Type 0
  Since r s =
      implies (column_eq s.lease_token token)
        (column_eq r.lease_token token && s.attempt == r.attempt)
      ≡ true

  Since-refl : (r : Row) → Since r r
  Since-refl r = ground arith

  Since-trans : (r s t : Row) → Since r s → Since s t → Since r t
  Since-trans r s t f g = ground arith

  abbrev Held : String → Db → Row → Type 0
  Held id db r = (s : Row) × (find_row id db ≡ some s) × Since r s

  Held-update_rows :
      (test : Row → Bool) (change : Row → Row)
      → KeepsId change
      → ((r : Row) → Since r (change r))
      → (id : String) (db : Db) (r : Row) → find_row id db ≡ some r
      → Held id (update_rows test change db) r
  Held-update_rows test change keeps since id db r e = (
    updated test change r,
    find_row-update_rows test change keeps id db ∙ ap (Option.map (updated test change)) e,
    elim (Bool-cases (test r)) [ inl f ↦ rw f (since r) | inr f ↦ rw f (Since-refl r) ],
  )

  module _ (c : Calendar) (id : String) where
    apply-Held :
        (op : Op)
        → is_other op ≡ true
        → (db : Db) (r : Row) → find_row id db ≡ some r
        → Held id (apply c op db) r
    unfolding apply update_one mark_processing mark_done mark_failed defer_retry ack_update
        update_transcript_path reclaim_expired
    apply-Held (submits now t url job_id) other db r e =
        submits_cases c (λ db'. Held id db' r) db now t url job_id (r, e, Since-refl r)
          (λ _. (r, find_row-append id db _ r e, Since-refl r))
    apply-Held (claims now ttl t) other db r e =
        claims_cases c (λ db'. Held id db' r) db now ttl t (r, e, Since-refl r)
          (λ s _. Held-update_rows _ _ (λ q. refl) (λ q. ground arith) id db r e)
    apply-Held (starts now key t) other db r e =
        Held-update_rows _ _ (λ q. refl) (λ q. ground arith) id db r e
    apply-Held (finishes now key t path) other db r e =
        Held-update_rows _ _ (λ q. refl) (λ q. ground arith) id db r e
    apply-Held (fails now key t error) other db r e =
        Held-update_rows _ _ (λ q. refl) (λ q. ground arith) id db r e
    apply-Held (defers key t at) other db r e =
        Held-update_rows _ _ (λ q. refl) (λ q. ground arith) id db r e
    apply-Held (acks now key) other db r e =
        Held-update_rows _ _ (λ q. refl) (λ q. ground arith) id db r e
    apply-Held (moves key path) other db r e =
        Held-update_rows _ _ (λ q. refl) (λ q. ground arith) id db r e
    apply-Held (reclaims now) other db r e =
        Held-update_rows _ _ (λ q. refl) (λ q. ground arith) id db r e

    run-Held :
        (ops : List Op)
        → All (λ op. is_other op ≡ true) ops
        → (db : Db) (r : Row) → find_row id db ≡ some r
        → Held id (run c ops db) r
    unfolding run
    run-Held [] others db r e = (r, e, Since-refl r)
    run-Held (op ∷ ops) others db r e =
        let (s, f, g) = apply-Held op others.0 db r e in
        let (t, f', g') = run-Held ops others.1 (apply c op db) s f in
        (t, f', Since-trans r s t g g')

    -- Nothing that the holder of the token may do has any effect.
    abbrev pub IsPowerless : Db → Type 0
    IsPowerless db =
        (now : ℕ) (path : String) (error : JobError) (at : DateTime)
        → (mark_processing c now id token db ≡ (db, false))
          × (mark_done c now id token path db ≡ (db, false))
          × (mark_failed c now id token error db ≡ (db, false))
          × (defer_retry c id token at db ≡ (db, false))

    -- If no two jobs share a key and no later claim draws the token again: after any history, either
    -- the job is in the attempt in which it was and the token is still its lease, as it was then; or
    -- the token is powerless, and the transitions of the worker that has it write nothing.
    pub lease_lasts :
        (ops : List Op)
        → All (λ op. is_other op ≡ true) ops
        → (db : Db) (r : Row) → UniqueIds db
        → find_row id db ≡ some r
        → ((s : Row) × (find_row id (run c ops db) ≡ some s)
            × (s.attempt ≡ r.attempt)
            × (column_eq s.lease_token token ≡ true)
            × (column_eq r.lease_token token ≡ true))
          ⊎ IsPowerless (run c ops db)
    lease_lasts ops others db r u e =
        let (s, f, since) = run-Held ops others db r e in
        elim (Bool-cases (column_eq s.lease_token token)) [
          | inl held ↦ inl (s, f, ground arith, held, ground arith)
          | inr lost ↦ inr (λ now path error at.
              fenced c now id token path error at (run c ops db) s (run-UniqueIds c ops db u) f
                lost)
        ]
