-- ===== src/Worker/Commits.antt =====
-- What an iteration of the worker commits: `process_one` of
-- src/local_transcription_service/worker.py against the operations of the store.
use local_transcription_serv.Prelude.{true, ℕ, List, [], ◌≡◌}
use local_transcription_serv.Models.{Calendar, Job}
use local_transcription_serv.Store.Table.{Db}
use local_transcription_serv.Store.History.{Op, apply, run}
use local_transcription_serv.Store.Reaches.{Reaches, Reaches-refl, reaches, Reaches-trans}
use local_transcription_serv.Worker.{
  WorkerSettings, World, Surroundings, process_one, process_job, claim,
}
use local_transcription_serv.Worker.Keeps.{
  is_workers, process_job_keeps, claim_keeps, process_one_keeps,
}

module _ (c : Calendar) (s : WorkerSettings) (e : Surroundings) (between : ℕ → List Op)
    (h : (k : ℕ) (db : Db) → e.others k db ≡ run c (between k) db) where
  pub others-Reaches : (k : ℕ) (db : Db) → Reaches c db (e.others k db)
  others-Reaches k db = record { history = between k; committed = h k db }

  -- From a table on, whatever the others and the store's operations do.
  later : (start : Db) (k : ℕ) (db : Db) → Reaches c start db → Reaches c start (e.others k db)
  later start k db p = Reaches-trans c p (others-Reaches k db)

  applied :
      (start : Db) (op : Op) (db : Db)
      → is_workers op ≡ true
      → Reaches c start db
      → Reaches c start (apply c op db)
  unfolding run
  applied start op db _ p = Reaches-trans c p (reaches c op [] db)

  pub process_job-Reaches : (j : Job) (w : World) → Reaches c w.db (process_job c s e j w).1.db
  process_job-Reaches j w =
      process_job_keeps c s e (Reaches c w.db) (later w.db) (applied w.db) j w (Reaches-refl c)

  pub claim-Reaches : (db : Db) → Reaches c db (claim c s e db).0
  claim-Reaches db = claim_keeps c s e (Reaches c db) (later db) (applied db) db (Reaches-refl c)

  -- Whatever histories the other users of the table commit between its statements and whichever
  -- statements the database refuses, one iteration of the worker commits a history of the store's operations, in every outcome.
  pub process_one-Reaches : (w : World) → Reaches c w.db (process_one c s e w).1.db
  process_one-Reaches w =
      process_one_keeps c s e (Reaches c w.db) (later w.db) (applied w.db) w (Reaches-refl c)
