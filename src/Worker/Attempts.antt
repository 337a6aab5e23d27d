-- ===== src/Worker/Attempts.antt =====
-- How often a claim loop of src/local_transcription_service/worker.py calls the pipeline for a job.
use local_transcription_serv.Prelude.{
  ℕ, ◌≤◌, String, Option, none, some, List, [], ◌∷◌, ◌≡◌, inl, inr, ap, subst, arith, text_eq,
  text_eq_iff, text_eq_self, Bool-cases, All,
}
use local_transcription_serv.Models.{Calendar, Job}
use local_transcription_serv.Store.Table.{Db}
use local_transcription_serv.Store.Keyed.{UniqueIds}
use local_transcription_serv.Store.Begun.{attempts}
use local_transcription_serv.Store.History.{Op, run}
use local_transcription_serv.Store.Reaches.{Reaches}
use local_transcription_serv.Worker.{
  WorkerSettings, World, Surroundings, Outcome, idle, crashed, process_one, process_job, claim,
}
use local_transcription_serv.Worker.Commits.{others-Reaches, claim-Reaches, process_job-Reaches}
use local_transcription_serv.Worker.Loops.{claim_loop}
use local_transcription_serv.Worker.Calls.{
  calls, Reaches-attempts, Reaches-UniqueIds, Claimed, process_job-Called, claim-Claimed,
}

-- The jobs have distinct keys, and the pipeline was called for each at most as often as its
-- attempts count and as often as the limit allows.
pub record Bounded (s : WorkerSettings) (w : World) : Type 0 where
  pub unique : UniqueIds w.db
  pub used : (id : String) → calls id w.transcribed ≤ attempts id w.db
  pub most : (id : String) → calls id w.transcribed ≤ s.max_attempts

module _ (c : Calendar) (s : WorkerSettings) (e : Surroundings) (between : ℕ → List Op)
    (h : (k : ℕ) (db : Db) → e.others k db ≡ run c (between k) db) where
  process_job-Bounded :
      (before : Db) (j : Job) (w : World)
      → Claimed before (w.db, some (some j))
      → ((id : String) → attempts id before ≤ attempts id w.db)
      → ((id : String) → calls id w.transcribed ≤ attempts id before)
      → ((id : String) → calls id w.transcribed ≤ s.max_attempts)
      → (id : String)
      → let after = (process_job c s e j w).1 in
        (calls id after.transcribed ≤ attempts id after.db)
        × (calls id after.transcribed ≤ s.max_attempts)
  process_job-Bounded before j w claimed grown used most id =
      let final = Reaches-attempts c (process_job-Reaches c s e between h j w) in
      let after = (process_job c s e j w).1 in
      elim (process_job-Called c s e j w) [
        | inl k ↦ rw k (omega (arith, final id, grown id, used id), most id)
        | inr (within, k) ↦ elim (Bool-cases (text_eq j.job_id id)) [
          | inl same ↦
              subst
                (λ (i : String).
                  (calls i after.transcribed ≤ attempts i after.db)
                  × (calls i after.transcribed ≤ s.max_attempts))
                ((text_eq_iff j.job_id id).0 same)
                (rw (k, text_eq_self j.job_id)
                  (omega (arith, final j.job_id, used j.job_id), omega (arith, used j.job_id)))
          | inr other ↦
              rw (k, other) (omega (arith, final id, grown id, used id), omega (arith, most id))
        ]
      ]

  process_one-Bounded : (w : World) → Bounded s w → Bounded s (process_one c s e w).1
  unfolding process_one
  process_one-Bounded w b =
      after (claim c s e read) (claim-Reaches c s e between h read)
        (claim-Claimed c s e between h read unique)
    where
      read : Db
      read = e.others 0 w.db

      arrived : Reaches c w.db read
      arrived = others-Reaches c s e between h 0 w.db

      unique : UniqueIds read
      unique = Reaches-UniqueIds c arrived b.unique

      used : (id : String) → calls id w.transcribed ≤ attempts id read
      used id = omega (arith, b.used id, Reaches-attempts c arrived id)

      unchanged : (db : Db) → Reaches c read db → Bounded s (record w { db = db })
      unchanged db p = record {
        unique = Reaches-UniqueIds c p unique;
        used = λ id. omega (arith, used id, Reaches-attempts c p id);
        most = b.most;
      }

      after :
          (p : Db × Option (Option Job))
          → Reaches c read p.0
          → Claimed read p
          → Bounded s
              (elim p.1 as (λ _. Outcome × World) [
                | none ↦ (crashed, record w { db = p.0 })
                | some found ↦ elim found as (λ _. Outcome × World) [
                  | none ↦ (idle, record w { db = p.0 })
                  | some j ↦ process_job c s e j (record w { db = p.0 })
                ]
              ]).1
      after (db, none) p q = unchanged db p
      after (db, some none) p q = unchanged db p
      after (db, some (some j)) p q =
          let within =
            process_job-Bounded read j (record w { db = db }) q (Reaches-attempts c p) used
              b.most in
          record {
            unique =
                Reaches-UniqueIds c (process_job-Reaches c s e between h j (record w { db = db }))
                  (Reaches-UniqueIds c p unique);
            used = λ id. (within id).0;
            most = λ id. (within id).1;
          }

-- Surroundings in which the others commit histories of the store's operations.
pub record Acts (c : Calendar) (e : Surroundings) : Type 0 where
  pub between : ℕ → List Op
  pub committed : (k : ℕ) (db : Db) → e.others k db ≡ run c (between k) db

claim_loop-Bounded :
    (c : Calendar) (s : WorkerSettings) (rounds : List Surroundings) (w : World)
    → All (Acts c) rounds
    → Bounded s w
    → Bounded s (claim_loop c s rounds w).0
unfolding claim_loop
claim_loop-Bounded c s [] w h b = b
claim_loop-Bounded c s (e ∷ rounds) w h b =
    claim_loop-Bounded c s rounds _ h.1 (process_one-Bounded c s e h.0.between h.0.committed w b)

-- If no two jobs share a key and the others commit only histories of the store's operations, then
-- whichever statements the database refuses, over any number of rounds one claim loop calls the pipeline for a job at most `max_attempts`
-- times, and no more often than the job's attempts in the table say.
pub claim_loop_bounds :
    (c : Calendar) (s : WorkerSettings) (rounds : List Surroundings) (w : World)
    → All (Acts c) rounds
    → UniqueIds w.db
    → w.transcribed ≡ []
    → (id : String)
    → let last = (claim_loop c s rounds w).0 in
      (calls id last.transcribed ≤ s.max_attempts)
      × (calls id last.transcribed ≤ attempts id last.db)
claim_loop_bounds c s rounds w acts unique fresh id =
    let none_yet : (i : String) (n : ℕ) → calls i w.transcribed ≤ n =
      λ i n. rw (ap (calls i) fresh) (omega arith) in
    let b = claim_loop-Bounded c s rounds w acts (record {
      unique = unique;
      used = λ i. none_yet i (attempts i w.db);
      most = λ i. none_yet i s.max_attempts;
    }) in
    (b.most id, b.used id)
