-- ===== src/Api/Ack/Effects.antt =====
-- What an acknowledgement does to the table and to the files, and what its answer says of them:
-- `ack_job` of src/local_transcription_service/api/jobs.py.
use local_transcription_serv.Prelude.{
  ℕ, String, Bool, true, false, Option, none, some, List, [], ◌∷◌, ◌≡◌, refl, subst, inl, inr,
  if-elim, Option-cases,
}
use local_transcription_serv.Models.{Calendar, Job}
use local_transcription_serv.Models.Status.{is_done}
use local_transcription_serv.Store.Table.{Db}
use local_transcription_serv.Store.Queries.{get}
use local_transcription_serv.Store.History.{Op, acks, moves, apply, run}
use local_transcription_serv.Store.Reaches.{Reaches, Reaches-refl, Reaches-trans}
use local_transcription_serv.Store.Transitions.{ack_update, update_transcript_path}
use local_transcription_serv.Transcripts.{Files, MoveOutcome, move_to_trash}
use local_transcription_serv.Transcripts.Effect.{Moved, MovedBy, move_to_trash-MovedBy}
use local_transcription_serv.Api.{Reply, AckResponse}
use local_transcription_serv.Api.Ack.{
  Surroundings, World, db_unavailable, path_of, is_in_trash, statement, respond, reread, store_path,
  heal_path, move_transcript, read_acked, mark_acked_update, preflight, ack_job,
}
use local_transcription_serv.Api.Ack.Answers.{Truthful, respond-Truthful}

-- What an acknowledgement leaves and answers, from the world before.
pub record Acknowledges (c : Calendar) (e : Surroundings) (before : World)
    (after : World × Reply AckResponse) : Type 0 where
  pub table : Reaches c before.db after.0.db
  pub files : Moved e.file_system e.trash_dir before.files after.0.files
  pub answer : Truthful e after.0.files after.1

module _ (c : Calendar) (e : Surroundings) (between : ℕ → List Op)
    (h : (k : ℕ) (db : Db) → e.others k db ≡ run c (between k) db) (job_id : String) where
  statement_cases :
      (P : World × Reply AckResponse → Type 0) (k : ℕ) (w : World)
      (next : World → World × Reply AckResponse)
      → ((text : String) → P (record w { db = e.others k w.db }, db_unavailable text))
      → P (next (record w { db = e.others k w.db }))
      → P (statement c e job_id k w next)
  statement_cases P k w next failed passed = elim (Option-cases (e.db_error k)) [
    | inl f ↦ rw (f, statement) passed
    | inr (text, f) ↦ rw (f, statement) (failed text)
  ]

  others-Reaches : {x : Db} (k : ℕ) {db : Db} → Reaches c x db → Reaches c x (e.others k db)
  others-Reaches k {db} p = Reaches-trans c p (record { history = between k; committed = h k db })

  -- A step of the store's after a history.
  then_op : {x : Db} (op : Op) {db : Db} → Reaches c x db → Reaches c x (apply c op db)
  then_op op {db} p =
      Reaches-trans c p (record { history = op ∷ []; committed = unfold run in refl })

  module _ (w₀ : World) where
    respond-Acknowledges :
        (newly_acked : Bool) (destination : Option String) (job : Job) (w : World)
        → Reaches c w₀.db w.db
        → Moved e.file_system e.trash_dir w₀.files w.files
        → Acknowledges c e w₀ (respond c e job_id newly_acked destination job w)
    unfolding respond
    respond-Acknowledges newly_acked destination job w p m = record {
      table = p;
      files = m;
      answer = respond-Truthful c e job_id newly_acked destination job w;
    }

    reread-Acknowledges :
        (newly_acked : Bool) (destination : String) (job : Job) (w : World)
        → Reaches c w₀.db w.db
        → Moved e.file_system e.trash_dir w₀.files w.files
        → Acknowledges c e w₀ (reread c e job_id newly_acked destination job w)
    unfolding reread
    reread-Acknowledges newly_acked destination job w p m =
        elim (Option-cases (get c job_id w.db)) [
          | inl f ↦ rw (f, reread) (record { table = p; files = m; answer = tt })
          | inr (none, f) ↦ rw (f, reread) (respond-Acknowledges newly_acked _ job w p m)
          | inr (some fresh, f) ↦ rw (f, reread) (respond-Acknowledges newly_acked _ fresh w p m)
        ]

    heal_path-Acknowledges :
        (newly_acked : Bool) (destination : String) (job : Job) (w : World)
        → Reaches c w₀.db w.db
        → Moved e.file_system e.trash_dir w₀.files w.files
        → Acknowledges c e w₀ (heal_path c e job_id newly_acked destination job w)
    unfolding heal_path store_path apply
    heal_path-Acknowledges newly_acked destination job w p m =
        let healed = then_op (moves job_id destination) (others-Reaches 3 p) in
        statement_cases (Acknowledges c e w₀) 3 w
          (store_path c e job_id newly_acked destination job)
          (λ text. record { table = others-Reaches 3 p; files = m; answer = tt })
          (statement_cases (Acknowledges c e w₀) 4
            (record w { db = (update_transcript_path job_id destination (e.others 3 w.db)).0 })
            (reread c e job_id newly_acked destination job)
            (λ text. record { table = others-Reaches 4 healed; files = m; answer = tt })
            (reread-Acknowledges newly_acked destination job _ (others-Reaches 4 healed) m))

    move_transcript-Acknowledges :
        (newly_acked : Bool) (job : Job) (w : World)
        → Reaches c w₀.db w.db
        → w.files ≡ w₀.files
        → Acknowledges c e w₀ (move_transcript c e job_id newly_acked job w)
    unfolding move_transcript
    move_transcript-Acknowledges newly_acked job w p m =
        elim (Option-cases (is_in_trash c e job_id (path_of job.transcript_path) w.files)) [
          | inl f ↦ rw (f, move_transcript) (record { table = p; files = inl m; answer = tt })
          | inr (true, f) ↦
              rw (f, move_transcript) (respond-Acknowledges newly_acked _ job w p (inl m))
          | inr (false, f) ↦
              elim (Option-cases
                (move_to_trash e.file_system e.trash_dir (path_of job.transcript_path) w.files)) [
                  | inl g ↦
                      rw (f, g, move_transcript) (record { table = p; files = inl m; answer = tt })
                  | inr ((files, outcome), g) ↦ elim (Option-cases outcome.destination) [
                    | inl d ↦
                        rw (f, g, d, move_transcript)
                          (respond-Acknowledges newly_acked none job (record w { files = files }) p
                            (moved g))
                    | inr (destination, d) ↦
                        rw (f, g, d, move_transcript)
                          (heal_path-Acknowledges newly_acked destination job
                            (record w { files = files }) p (moved g))
                  ]
                ]
        ]
      where
        moved :
            {files : Files} {outcome : MoveOutcome}
            → move_to_trash e.file_system e.trash_dir (path_of job.transcript_path) w.files
              ≡ some (files, outcome)
            → Moved e.file_system e.trash_dir w₀.files files
        moved {files} g =
            subst (λ fs. Moved e.file_system e.trash_dir fs files) m
              (subst (MovedBy e.file_system e.trash_dir w.files) g (
                move_to_trash-MovedBy e.file_system e.trash_dir w.files
                  (path_of job.transcript_path)))

    read_acked-Acknowledges :
        (newly_acked : Bool) (w : World)
        → Reaches c w₀.db w.db
        → w.files ≡ w₀.files
        → Acknowledges c e w₀ (read_acked c e job_id newly_acked w)
    unfolding read_acked
    read_acked-Acknowledges newly_acked w p m = elim (Option-cases (get c job_id w.db)) [
      | inl f ↦ rw (f, read_acked) (record { table = p; files = inl m; answer = tt })
      | inr (none, f) ↦ rw (f, read_acked) (record { table = p; files = inl m; answer = tt })
      | inr (some job, f) ↦ rw (f, read_acked) (move_transcript-Acknowledges newly_acked job w p m)
    ]

    mark_acked-Acknowledges :
        (w : World)
        → Reaches c w₀.db w.db
        → w.files ≡ w₀.files
        → Acknowledges c e w₀ (mark_acked_update c e job_id w)
    unfolding mark_acked_update apply
    mark_acked-Acknowledges w p m =
        let acked = others-Reaches 2 (then_op (acks e.now job_id) p) in
        statement_cases (Acknowledges c e w₀) 2
          (record w { db = (ack_update c e.now job_id w.db).0 })
          (read_acked c e job_id (ack_update c e.now job_id w.db).1)
          (λ text. record { table = acked; files = inl m; answer = tt })
          (read_acked-Acknowledges _ _ acked m)

  -- Whatever histories other connections commit between its statements and whichever statement
  -- the database refuses, an acknowledgement commits a history of the store's operations; it
  -- changes no file but for at most one, which it renames into the trash under its own name; and
  -- an answer with `transcript_moved` is true: a file is then in the trash directory.
  pub ack_job-Acknowledges : (w : World) → Acknowledges c e w (ack_job c e job_id w)
  unfolding ack_job preflight
  ack_job-Acknowledges w =
      statement_cases (Acknowledges c e w) 0 w (preflight c e job_id)
        (λ text. record { table = start; files = inl refl; answer = tt })
        (elim (Option-cases (get c job_id (e.others 0 w.db))) [
          | inl f ↦ rw (f, preflight) (record { table = start; files = inl refl; answer = tt })
          | inr (none, f) ↦
              rw (f, preflight) (record { table = start; files = inl refl; answer = tt })
          | inr (some pre, f) ↦
              rw (f, preflight)
                (if-elim (Acknowledges c e w) (is_done pre.status) marked
                  (record { table = start; files = inl refl; answer = tt }))
        ])
    where
      start : Reaches c w.db (e.others 0 w.db)
      start = others-Reaches 0 (Reaches-refl c)

      marked : Acknowledges c e w (
          statement c e job_id 1 (record w { db = e.others 0 w.db }) (mark_acked_update c e job_id))
      marked =
          statement_cases (Acknowledges c e w) 1 (record w { db = e.others 0 w.db })
            (mark_acked_update c e job_id)
            (λ text. record { table = others-Reaches 1 start; files = inl refl; answer = tt })
            (mark_acked-Acknowledges w _ (others-Reaches 1 start) refl)
