-- ===== src/Store/Invariant.antt =====
-- Which columns a job of src/local_transcription_service/queue/store.py has in which state.
use local_transcription_serv.Prelude.{
  Bool, true, List, [], ◌∷◌, ◌≡◌, is_some, arith, All, All-append, Bool-cases, inl, inr, ltb, ◌||◌,
  implies,
}
use local_transcription_serv.Models.{Calendar, Row}
use local_transcription_serv.Models.Status.{
  is_queued, is_processing, is_done, is_failed, is_active, is_terminal,
}
use local_transcription_serv.Store.Table.{Db, update_rows}
use local_transcription_serv.Store.Submit.{submit}
use local_transcription_serv.Store.Claim.{claim_update}
use local_transcription_serv.Store.Transitions.{
  update_one, mark_processing, mark_done, mark_failed, defer_retry, ack_update,
  update_transcript_path, reclaim_expired,
}
use local_transcription_serv.Store.History.{
  Op, submits, claims, starts, finishes, fails, defers, acks, moves, reclaims, apply, run,
  submits_cases, claims_cases,
}

-- A job in work has a lease and an expiry, any other has neither; it has an error exactly if it
-- failed and an end exactly if it is terminal; a done job has a start and a transcript; only done
-- jobs are acknowledged; a job outside the queue has been claimed at least once.
pub record IsValid (r : Row) : Type 0 where
  pub leased : is_some r.lease_token ≡ is_active r.status
  pub expires : is_some r.lease_expires_at ≡ is_active r.status
  pub error : is_some r.error_code ≡ is_failed r.status
  pub retryable : is_some r.error_retryable ≡ is_failed r.status
  pub finished : is_some r.finished_at ≡ is_terminal r.status
  pub started : implies (is_processing r.status) (is_some r.started_at) ≡ true
  pub started_done : implies (is_done r.status) (is_some r.started_at) ≡ true
  pub transcript : implies (is_done r.status) (is_some r.transcript_path) ≡ true
  pub acked : implies (is_some r.acked_at) (is_done r.status) ≡ true
  pub attempted : (is_queued r.status || ltb 0 r.attempt) ≡ true

pub All-update_rows {ℓ} :
    (P : Row → Type ℓ) (test : Row → Bool) (change : Row → Row) (db : Db)
    → ((r : Row) → test r ≡ true → P r → P (change r))
    → All P db
    → All P (update_rows test change db)
unfolding update_rows
All-update_rows P test change [] keep h = tt
All-update_rows P test change (r ∷ db) keep h = (
  elim (Bool-cases (test r)) [ inl e ↦ rw e (keep r e h.0) | inr e ↦ rw e h.0 ],
  All-update_rows P test change db keep h.1,
)

module _ (c : Calendar) where
  apply-IsValid : (op : Op) (db : Db) → All IsValid db → All IsValid (apply c op db)
  unfolding apply submit claim_update update_one mark_processing mark_done mark_failed defer_retry
      ack_update update_transcript_path reclaim_expired
  apply-IsValid (submits now token url job_id) db h =
      submits_cases c (All IsValid) db now token url job_id h
        (λ _. All-append IsValid db _ h (ground arith, tt))
  apply-IsValid (claims now ttl token) db h =
      claims_cases c (All IsValid) db now ttl token h
        (λ r _. All-update_rows IsValid _ _ db (λ s f v. ground arith) h)
  apply-IsValid (starts now id token) db h =
      All-update_rows IsValid _ _ db (λ r e v. ground arith) h
  apply-IsValid (finishes now id token path) db h =
      All-update_rows IsValid _ _ db (λ r e v. ground arith) h
  apply-IsValid (fails now id token error) db h =
      All-update_rows IsValid _ _ db (λ r e v. ground arith) h
  apply-IsValid (defers id token at) db h = All-update_rows IsValid _ _ db (λ r e v. ground arith) h
  apply-IsValid (acks now id) db h = All-update_rows IsValid _ _ db (λ r e v. ground arith) h
  apply-IsValid (moves id path) db h = All-update_rows IsValid _ _ db (λ r e v. ground arith) h
  apply-IsValid (reclaims now) db h = All-update_rows IsValid _ _ db (λ r e v. ground arith) h

  -- If every job's columns agree with its state, they do after any history of operations.
  pub run-IsValid : (ops : List Op) (db : Db) → All IsValid db → All IsValid (run c ops db)
  unfolding run
  run-IsValid [] db h = h
  run-IsValid (op ∷ ops) db h = run-IsValid ops (apply c op db) (apply-IsValid op db h)
