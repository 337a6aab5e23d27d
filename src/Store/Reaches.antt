-- ===== src/Store/Reaches.antt =====
-- Which tables the store's operations of src/local_transcription_service/queue/store.py lead to.
use local_transcription_serv.Prelude.{List, [], ◌∷◌, ◌++◌, ◌≡◌, refl, ◌∙◌, ap, sym}
use local_transcription_serv.Models.{Calendar}
use local_transcription_serv.Store.Table.{Db}
use local_transcription_serv.Store.History.{Op, apply, run}

module _ (c : Calendar) where
  run-append : (xs ys : List Op) (db : Db) → run c (xs ++ ys) db ≡ run c ys (run c xs db)
  unfolding run
  run-append [] ys db = refl
  run-append (x ∷ xs) ys db = run-append xs ys (apply c x db)

  -- One table comes from another by a history.
  pub record Reaches (db db' : Db) : Type 0 where
    pub history : List Op
    pub committed : db' ≡ run c history db

  pub Reaches-refl : {x : Db} → Reaches x x
  unfolding run
  Reaches-refl = record { history = []; committed = refl }

  pub reaches : (op : Op) (ops : List Op) (db : Db) → Reaches db (apply c op (run c ops db))
  unfolding run
  reaches op ops db = record {
    history = ops ++ (op ∷ []);
    committed = sym (run-append ops (op ∷ []) db);
  }

  pub Reaches-trans : {x y z : Db} → Reaches x y → Reaches y z → Reaches x z
  Reaches-trans {x} p q = record {
    history = p.history ++ q.history;
    committed =
        q.committed ∙ ap (run c q.history) p.committed ∙ sym (run-append p.history q.history x);
  }
