-- ===== src/Api/Ack.antt =====
-- The acknowledgement of a transcript: `ack_job` of src/local_transcription_service/api/jobs.py.
pub mod Answers
pub mod Effects
pub mod Phases
pub mod Interrupted
pub mod Converges
use local_transcription_serv.Prelude.{
  ℕ, String, ◌<>◌, Bool, true, false, Option, none, some, ◌>>=◌, ◌&&◌, not, text_eq, if◌then◌else◌,
}
use local_transcription_serv.Models.{Calendar, Job}
use local_transcription_serv.Models.Status.{is_done, value}
use local_transcription_serv.Store.Table.{Db}
use local_transcription_serv.Store.Queries.{get}
use local_transcription_serv.Store.Transitions.{ack_update, update_transcript_path}
use local_transcription_serv.Transcripts.{Files, FileSystem, exists, move_to_trash}
use local_transcription_serv.Api.{Reply, success, http_exception, unhandled, not_found, AckResponse}

-- What `ack_job` meets: the clock, what other connections commit before its statement number k, and
-- the text of the database error with which that statement fails, if it does.
pub record Surroundings : Type 0 where
  pub file_system : FileSystem
  pub trash_dir : String
  -- the path without its last part
  pub parent : String → String
  pub now : ℕ
  pub others : ℕ → Db → Db
  pub db_error : ℕ → Option String

pub record World : Type 0 where
  pub db : Db
  pub files : Files

abbrev pub db_unavailable : String → Reply AckResponse
db_unavailable text = http_exception 503 "DB_UNAVAILABLE" ("Database error: " <> text)

-- `Path(str(path)) if path else None`
abbrev pub path_of : Option String → Option String
path_of none = none
path_of (some path) = if text_eq path "" then none else some path

module _ (c : Calendar) (e : Surroundings) (job_id : String) where
  -- Whether the path is a file in the trash; `none` is an exception of `resolve`.
  abbrev pub is_in_trash : Option String → Files → Option Bool
  is_in_trash none files = some false
  is_in_trash (some path) files = do
    parent ← e.file_system.resolve (e.parent path)
    trash ← e.file_system.resolve e.trash_dir
    some (text_eq parent trash && exists files path)

  -- A statement of the store, after the others' commits, unless the database fails.
  abbrev pub statement : ℕ → World → (World → World × Reply AckResponse) → World × Reply AckResponse
  statement k w next =
      let w' = record w { db = e.others k w.db } in
      elim (e.db_error k) [ some text ↦ (w', db_unavailable text) | none ↦ next w' ]

  -- From `final_path_obj` on.
  unfoldable pub respond : Bool → Option String → Job → World → World × Reply AckResponse
  respond newly_acked destination job w = (
    w,
    elim (is_in_trash (path_of job.transcript_path) w.files) [
      | none ↦ unhandled
      | some transcript_moved_now ↦ elim job.acked_at [
        | none ↦ unhandled
        | some acked_at ↦ success (record {
          job_id = job.job_id;
          acked_at = acked_at;
          already_acked = not newly_acked;
          transcript_moved = transcript_moved_now;
          transcript_path = elim destination [ none ↦ job.transcript_path | some d ↦ some d ];
        })
      ]
    ],
  )

  -- `job = await store.get(job_id) or job` after the move
  unfoldable pub reread : Bool → String → Job → World → World × Reply AckResponse
  reread newly_acked destination job w = elim (get c job_id w.db) [
    | none ↦ (w, unhandled)
    | some found ↦ elim found [
      | none ↦ respond newly_acked (some destination) job w
      | some fresh ↦ respond newly_acked (some destination) fresh w
    ]
  ]

  -- `update_transcript_path` on its connection, then that
  unfoldable pub store_path : Bool → String → Job → World → World × Reply AckResponse
  store_path newly_acked destination job w =
      statement 4 (record w { db = (update_transcript_path job_id destination w.db).0 })
        (reread newly_acked destination job)

  unfoldable pub heal_path : Bool → String → Job → World → World × Reply AckResponse
  heal_path newly_acked destination job w = statement 3 w (store_path newly_acked destination job)

  -- From `transcript_path_obj` on.
  unfoldable pub move_transcript : Bool → Job → World → World × Reply AckResponse
  move_transcript newly_acked job w = elim (is_in_trash (path_of job.transcript_path) w.files) [
    | none ↦ (w, unhandled)
    | some currently_in_trash ↦
        if currently_in_trash
        then respond newly_acked (path_of job.transcript_path) job w
        else elim (move_to_trash e.file_system e.trash_dir (path_of job.transcript_path) w.files) [
          | none ↦ (w, unhandled)
          | some (files, outcome) ↦
              let w' = record w { files = files } in
              elim outcome.destination [
                | none ↦ respond newly_acked none job w'
                | some destination ↦ heal_path newly_acked destination job w'
              ]
        ]
  ]

  -- The end of `mark_acked`, where no row fails the `assert`.
  unfoldable pub read_acked : Bool → World → World × Reply AckResponse
  read_acked newly_acked w = elim (get c job_id w.db) [
    | none ↦ (w, unhandled)
    | some found ↦ elim found [
      | none ↦ (w, unhandled)
      | some job ↦ move_transcript newly_acked job w
    ]
  ]

  -- The UPDATE of `mark_acked`, then its `get` on another connection
  unfoldable pub mark_acked_update : World → World × Reply AckResponse
  mark_acked_update w =
      let (db, newly_acked) = ack_update c e.now job_id w.db in
      statement 2 (record w { db = db }) (read_acked newly_acked)

  -- The pre-flight check
  unfoldable pub preflight : World → World × Reply AckResponse
  preflight w = elim (get c job_id w.db) [
    | none ↦ (w, unhandled)
    | some found ↦ elim found [
      | none ↦ (w, not_found)
      | some pre ↦ if is_done pre.status then statement 1 w mark_acked_update else (
        w,
        http_exception 409 "NOT_DONE" (
            "Job not in DONE state (status="
            <> value pre.status
            <> "); only finished jobs can be acked"),
      )
    ]
  ]

  unfoldable pub ack_job : World → World × Reply AckResponse
  ack_job w = statement 0 w preflight
