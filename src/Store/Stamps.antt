-- ===== src/Store/Stamps.antt =====
-- The keys and the time columns of the table after a history, and the job that `claim` takes:
-- src/local_transcription_service/queue/store.py.
use local_transcription_serv.Prelude.{
  ℕ, false, none, List, [], ◌∷◌, ◌++◌, ◌≡◌, refl, All, All-append, arith, text_eq, text_eq_iff,
}
use local_transcription_serv.Models.{Calendar, IsLawful, Row, at_utc, iso_text}
use local_transcription_serv.Store.Table.{Db, find_row}
use local_transcription_serv.Store.Claim.{first_eligible}
use local_transcription_serv.Store.Claim.Rank.{IsStamped, iso_text-IsStamp}
use local_transcription_serv.Store.Claim.Order.{Chosen, first_eligible-Chosen}
use local_transcription_serv.Store.Keyed.{UniqueIds, update_rows-UniqueIds}
use local_transcription_serv.Store.Exclusive.{Found, first_eligible-Found}
use local_transcription_serv.Store.Invariant.{All-update_rows}
use local_transcription_serv.Store.Transitions.{
  update_one, mark_processing, mark_done, mark_failed, defer_retry, ack_update,
  update_transcript_path, reclaim_expired,
}
use local_transcription_serv.Store.History.{
  Op, submits, claims, starts, finishes, fails, defers, acks, moves, reclaims, apply, run,
  submits_cases, claims_cases,
}

pub UniqueIds-append :
    (db : Db) (r : Row) → UniqueIds db → find_row r.job_id db ≡ none → UniqueIds (db ++ (r ∷ []))
unfolding find_row
UniqueIds-append [] r u h = (refl, tt)
UniqueIds-append (s ∷ db) r u h =
    (fresh db (ground arith) u.0, UniqueIds-append db r u.1 (ground arith))
  where
    fresh :
        (rest : Db)
        → text_eq s.job_id r.job_id ≡ false
        → find_row s.job_id rest ≡ none
        → find_row s.job_id (rest ++ (r ∷ [])) ≡ none
    fresh [] e k = ground (arith, text_eq_iff s.job_id r.job_id, text_eq_iff r.job_id s.job_id)
    fresh (q ∷ rest) e k = ground (arith, fresh rest e)

module _ (c : Calendar) where
  pub apply-UniqueIds : (op : Op) (db : Db) → UniqueIds db → UniqueIds (apply c op db)
  unfolding apply update_one mark_processing mark_done mark_failed defer_retry ack_update
      update_transcript_path reclaim_expired
  apply-UniqueIds (submits now token url job_id) db h =
      submits_cases c UniqueIds db now token url job_id h (λ e. UniqueIds-append db _ h e)
  apply-UniqueIds (claims now ttl token) db h =
      claims_cases c UniqueIds db now ttl token h
        (λ r _. update_rows-UniqueIds _ _ (λ q. refl) db h)
  apply-UniqueIds (starts now id token) db h = update_rows-UniqueIds _ _ (λ q. refl) db h
  apply-UniqueIds (finishes now id token path) db h = update_rows-UniqueIds _ _ (λ q. refl) db h
  apply-UniqueIds (fails now id token error) db h = update_rows-UniqueIds _ _ (λ q. refl) db h
  apply-UniqueIds (defers id token at) db h = update_rows-UniqueIds _ _ (λ q. refl) db h
  apply-UniqueIds (acks now id) db h = update_rows-UniqueIds _ _ (λ q. refl) db h
  apply-UniqueIds (moves id path) db h = update_rows-UniqueIds _ _ (λ q. refl) db h
  apply-UniqueIds (reclaims now) db h = update_rows-UniqueIds _ _ (λ q. refl) db h

  -- If no two jobs share a key, none do after any history of operations.
  pub run-UniqueIds : (ops : List Op) (db : Db) → UniqueIds db → UniqueIds (run c ops db)
  unfolding run
  run-UniqueIds [] db h = h
  run-UniqueIds (op ∷ ops) db h = run-UniqueIds ops (apply c op db) (apply-UniqueIds op db h)

  module _ (L : IsLawful c) where
    apply-IsStamped : (op : Op) (db : Db) → All (IsStamped c) db → All (IsStamped c) (apply c op db)
    unfolding apply update_one mark_processing mark_done mark_failed defer_retry ack_update
        update_transcript_path reclaim_expired
    apply-IsStamped (submits now token url job_id) db h =
        submits_cases c (All (IsStamped c)) db now token url job_id h (λ _.
          All-append (IsStamped c) db _ h
            (record { created = iso_text-IsStamp c L now; retry = tt }, tt))
    apply-IsStamped (claims now ttl token) db h =
        claims_cases c (All (IsStamped c)) db now ttl token h (λ r _.
          All-update_rows (IsStamped c) _ _ db
            (λ s f v. record { created = v.created; retry = v.retry }) h)
    apply-IsStamped (starts now id token) db h =
        All-update_rows (IsStamped c) _ _ db
          (λ s f v. record { created = v.created; retry = v.retry }) h
    apply-IsStamped (finishes now id token path) db h =
        All-update_rows (IsStamped c) _ _ db
          (λ s f v. record { created = v.created; retry = v.retry }) h
    apply-IsStamped (fails now id token error) db h =
        All-update_rows (IsStamped c) _ _ db
          (λ s f v. record { created = v.created; retry = v.retry }) h
    apply-IsStamped (defers id token at) db h =
        All-update_rows (IsStamped c) _ _ db
          (λ s f v. record { created = v.created; retry = iso_text-IsStamp c L at }) h
    apply-IsStamped (acks now id) db h =
        All-update_rows (IsStamped c) _ _ db
          (λ s f v. record { created = v.created; retry = v.retry }) h
    apply-IsStamped (moves id path) db h =
        All-update_rows (IsStamped c) _ _ db
          (λ s f v. record { created = v.created; retry = v.retry }) h
    apply-IsStamped (reclaims now) db h =
        All-update_rows (IsStamped c) _ _ db
          (λ s f v. record { created = v.created; retry = v.retry }) h

    run-IsStamped :
        (ops : List Op) (db : Db) → All (IsStamped c) db → All (IsStamped c) (run c ops db)
    unfolding run
    run-IsStamped [] db h = h
    run-IsStamped (op ∷ ops) db h = run-IsStamped ops (apply c op db) (apply-IsStamped op db h)

    -- With a lawful calendar and after any history that began with no job, the subquery of `claim`
    -- returns a job of the table that waits and whose retry time has come, such that no other such
    -- job comes before it (one without a retry time first, then the one that was due first, then
    -- the one submitted first); it returns none only if no job waits with its time come.
    pub claim_in_order :
        (ops : List Op) (now : ℕ)
        → let chosen = first_eligible (iso_text c (at_utc now)) (run c ops []) in
          Chosen c now (run c ops []) chosen × Found (run c ops []) chosen
    claim_in_order ops now = (
      first_eligible-Chosen c L now (run c ops []) (run-IsStamped ops [] tt),
      first_eligible-Found (iso_text c (at_utc now)) (run c ops []) (run-UniqueIds ops [] tt),
    )
