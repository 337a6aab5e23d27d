-- ===== src/Worker/Statements.antt =====
-- One statement of the worker in src/local_transcription_service/worker.py, if the database refuses
-- it and if it does not.
use local_transcription_serv.Prelude.{ℕ, Bool, false, ◌≡◌, refl, if-elim}
use local_transcription_serv.Store.Table.{Db}
use local_transcription_serv.Worker.{World, Surroundings, Outcome, crashed, statement}

module _ (e : Surroundings) (k : ℕ) (sql : Db → Db × Bool) (next : World → Bool → Outcome × World)
    (w : World) where
  pub statement-elim :
      (P : Outcome × World → Type 0)
      → P (crashed, record w { db = e.others k w.db })
      → P (next (record w { db = (sql (e.others k w.db)).0 }) (sql (e.others k w.db)).1)
      → P (statement e k sql next w)
  unfolding statement
  statement-elim P refused committed = if-elim P (e.refused k) refused committed

  pub statement-served :
      e.refused k ≡ false
      → e.others k w.db ≡ w.db
      → statement e k sql next w ≡ next (record w { db = (sql w.db).0 }) (sql w.db).1
  unfolding statement
  statement-served served quiet = rw (served, quiet) refl
