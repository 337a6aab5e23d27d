-- ===== src/Store/Begun.antt =====
-- How often a job is begun, by what `mark_processing` of
-- src/local_transcription_service/queue/store.py returns.
use local_transcription_serv.Prelude.{
  ℕ, ◌+◌, ◌≤◌, String, Bool, true, false, Option, none, some, List, [], ◌∷◌, ◌++◌, ◌&&◌, ◌≡◌, refl,
  sym, ◌∙◌, subst, arith, text_eq, text_eq_iff, if◌then◌else◌, Bool-cases, Option-cases, inl, inr,
}
use local_transcription_serv.Models.{Calendar, Row}
use local_transcription_serv.Models.Status.{is_claimed}
use local_transcription_serv.Store.Table.{Db, find_row, update_rows}
use local_transcription_serv.Store.Keyed.{
  UniqueIds, KeepsId, find_row-update_rows, update_one-accepts, update_one-succeeds,
}
use local_transcription_serv.Store.Stamps.{apply-UniqueIds}
use local_transcription_serv.Store.Once.{count_ops}
use local_transcription_serv.Store.Transitions.{
  update_one, may_start, started, mark_processing, mark_done, mark_failed, defer_retry, ack_update,
  update_transcript_path, reclaim_expired,
}
use local_transcription_serv.Store.History.{
  Op, submits, claims, starts, finishes, fails, defers, acks, moves, reclaims, apply, run,
  submits_cases, claims_cases,
}

-- The attempts of a job, and 0 where there is none.
abbrev pub attempts_of : Option Row → ℕ
attempts_of none = 0
attempts_of (some r) = r.attempt

abbrev pub attempts : String → Db → ℕ
attempts id db = attempts_of (find_row id db)

-- 1 for a job that is claimed and not begun.
abbrev pub pending_of : Option Row → ℕ
pending_of none = 0
pending_of (some r) = if is_claimed r.status then 1 else 0

abbrev pub pending : String → Db → ℕ
pending id db = pending_of (find_row id db)

module _ (c : Calendar) where
  -- The operation tells a worker that the job is its own to work on.
  abbrev pub begins : String → Op → Db → Bool
  begins id (starts now key token) db = text_eq key id && (mark_processing c now key token db).1
  begins id _ db = false

module _ (c : Calendar) (id : String) where
  -- A number of begun jobs, paid for by the attempts or by the claim that was pending.
  abbrev Pays : ℕ → Option Row → Option Row → Type 0
  Pays n o o' = n + attempts_of o + pending_of o' ≤ attempts_of o' + pending_of o

  Pays-update_rows :
      (test : Row → Bool) (change : Row → Row)
      → KeepsId change
      → ((r : Row) → test r ≡ true → Pays 0 (some r) (some (change r)))
      → (db : Db) → Pays 0 (find_row id db) (find_row id (update_rows test change db))
  Pays-update_rows test change keeps pays db =
      rw (find_row-update_rows test change keeps id db) (elim (Option-cases (find_row id db)) [
        | inl e ↦ rw e (omega arith)
        | inr (r, e) ↦
            rw e
              (elim (Bool-cases (test r)) [ inl f ↦ rw f (pays r f) | inr f ↦ rw f (omega arith) ])
      ])

  Pays-starts :
      (now : ℕ) (key token : String) (db : Db)
      → UniqueIds db
      → begins c id (starts now key token) db ≡ true
      → Pays 1 (find_row id db) (find_row id (mark_processing c now key token db).0)
  unfolding mark_processing
  Pays-starts now key token db u h =
      let same : key ≡ id = (text_eq_iff key id).0 (ground arith) in
      let passed : (update_one key (may_start token) (started c now) db).1 ≡ true = ground arith in
      subst
        (λ k.
          Pays 1 (find_row k db)
            (find_row k (update_one key (may_start token) (started c now) db).0))
        same
        (elim (Option-cases (find_row key db)) [
          | inl f ↦
              absurd
                (ground (arith, update_one-succeeds key (may_start token) (started c now) db u))
          | inr (r, f) ↦
              (let g : may_start token r ≡ true =
                  sym (update_one-succeeds key (may_start token) (started c now) db u ∙ simp f)
                  ∙ passed in
                let (yes', found) =
                  update_one-accepts key (may_start token) (started c now) (λ q. refl) db u f g in
                rw (f, found) (ground arith))
        ])

  Pays-append :
      (db : Db) (r : Row)
      → Pays 0 none (some r)
      → Pays 0 (find_row id db) (find_row id (db ++ (r ∷ [])))
  unfolding find_row
  Pays-append [] r h = elim (Bool-cases (text_eq r.job_id id)) [
    | inl e ↦ rw e h
    | inr e ↦ rw e (omega arith)
  ]
  Pays-append (s ∷ db) r h = elim (Bool-cases (text_eq s.job_id id)) [
    | inl e ↦ rw e (omega arith)
    | inr e ↦ rw e (Pays-append db r h)
  ]

  apply-Pays :
      (op : Op) (db : Db)
      → UniqueIds db
      → Pays (if begins c id op db then 1 else 0) (find_row id db) (find_row id (apply c op db))
  unfolding apply update_one mark_processing mark_done mark_failed defer_retry ack_update
      update_transcript_path reclaim_expired
  apply-Pays (submits now token url job_id) db u =
      submits_cases c (λ db'. Pays 0 (find_row id db) (find_row id db')) db now token url job_id
        (omega arith) (λ e. Pays-append db _ (omega arith))
  apply-Pays (claims now ttl token) db u =
      claims_cases c (λ db'. Pays 0 (find_row id db) (find_row id db')) db now ttl token
        (omega arith) (λ s _. Pays-update_rows _ _ (λ q. refl) (λ r f. ground arith) db)
  apply-Pays (starts now key token) db u =
      elim (Bool-cases (begins c id (starts now key token) db)) [
        | inl e ↦ rw e (Pays-starts now key token db u e)
        | inr e ↦ rw e (Pays-update_rows _ _ (λ q. refl) (λ r f. ground arith) db)
      ]
  apply-Pays (finishes now key token path) db u =
      Pays-update_rows _ _ (λ q. refl) (λ r f. ground arith) db
  apply-Pays (fails now key token error) db u =
      Pays-update_rows _ _ (λ q. refl) (λ r f. ground arith) db
  apply-Pays (defers key token at) db u = Pays-update_rows _ _ (λ q. refl) (λ r f. ground arith) db
  apply-Pays (acks now key) db u = Pays-update_rows _ _ (λ q. refl) (λ r f. ground arith) db
  apply-Pays (moves key path) db u = Pays-update_rows _ _ (λ q. refl) (λ r f. ground arith) db
  apply-Pays (reclaims now) db u = Pays-update_rows _ _ (λ q. refl) (λ r f. ground arith) db

  -- If no two jobs share a key: over any history of operations, however many workers take part, a
  -- job is begun (`mark_processing` returns True for it) at most as often as its attempts have grown;
  -- once more if at the start it was claimed and not begun yet, and once less if at the end it is.
  pub begun_bounds :
      (ops : List Op) (db : Db)
      → UniqueIds db
      → count_ops c (begins c id) ops db + attempts id db + pending id (run c ops db)
        ≤ attempts id (run c ops db) + pending id db
  unfolding run
  begun_bounds [] db u = omega arith
  begun_bounds (op ∷ ops) db u =
      let step = apply-Pays op db u in
      let rest = begun_bounds ops (apply c op db) (apply-UniqueIds c op db u) in
      omega (arith, step, rest)
