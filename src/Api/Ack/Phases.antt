-- ===== src/Api/Ack/Phases.antt =====
-- A transcript on its way into the trash: what an interrupted acknowledgement, `ack_job` of
-- src/local_transcription_service/api/jobs.py, may leave behind, and what the next one sees of it.
use mathlib.Core.Option
use local_transcription_serv.Prelude.{
  ℕ, String, true, false, Option, none, some, ◌≡◌, ◌≢◌, refl, text_eq, text_eq_ne, text_eq_self,
}
use local_transcription_serv.Models.{Calendar, IsLawful, Job, at_utc, to_row, iso}
use local_transcription_serv.Models.Rows.{fixed, from_row-to_row}
use local_transcription_serv.Models.Status.{is_done}
use local_transcription_serv.Store.Table.{find_row}
use local_transcription_serv.Store.Keyed.{UniqueIds, update_one-accepts, update_one-refuses}
use local_transcription_serv.Store.Queries.{get}
use local_transcription_serv.Store.Transitions.{
  ack_update, update_transcript_path, may_ack, acked, moved_to, always,
}
use local_transcription_serv.Worker.Settles.{update_one-UniqueIds}
use local_transcription_serv.Transcripts.{
  Files, FileSystem, renamed, unmoved, exists, rename, in_trash, move_to_trash,
}
use local_transcription_serv.Transcripts.Move.{move_to_trash_again}
use local_transcription_serv.Api.Ack.{Surroundings, World, is_in_trash, path_of}

-- One call of `ack_job`: its clock, and which of its statements the database refuses.
pub record Attempt : Type 0 where
  pub now : ℕ
  pub db_error : ℕ → Option String

-- The file system can move the file at `path` into the trash, which is another place.
pub record Movable (fs : FileSystem) (trash_dir : String) (parent : String → String) (path : String)
    : Type 0 where
  pub source : String
  pub destination : String
  pub source_dir : String
  pub trash : String
  pub nonempty : text_eq path "" ≡ false
  pub trash_nonempty : text_eq (in_trash fs trash_dir path) "" ≡ false
  pub mkdir : fs.mkdir trash_dir ≡ true
  pub replaces : fs.replace path (in_trash fs trash_dir path) ≡ renamed
  pub resolves : fs.resolve path ≡ some source
  pub trash_resolves : fs.resolve (in_trash fs trash_dir path) ≡ some destination
  pub apart : source ≢ destination
  pub path_apart : path ≢ in_trash fs trash_dir path
  pub parent_resolves : fs.resolve (parent path) ≡ some source_dir
  pub dir_resolves : fs.resolve trash_dir ≡ some trash
  pub outside : source_dir ≢ trash
  pub inside : fs.resolve (parent (in_trash fs trash_dir path)) ≡ some trash

-- Where the file and the path in the row are: both as before, the file in the trash already, both
-- there.
pub data Phase : Type 0 where
  untouched : Phase
  adrift : Phase
  stored : Phase

module _ (c : Calendar) (fs : FileSystem) (trash_dir : String) (parent : String → String) (j : Job)
    (path : String) (files : Files) where
  abbrev pub surroundings : Attempt → Surroundings
  surroundings a = record {
    file_system = fs;
    trash_dir = trash_dir;
    parent = parent;
    now = a.now;
    others = λ k db. db;
    db_error = a.db_error;
  }

  abbrev pub trashed : String
  trashed = in_trash fs trash_dir path

  abbrev pub path_at : Phase → String
  path_at untouched = path
  path_at adrift = path
  path_at stored = trashed

  abbrev pub files_at : Phase → Files
  files_at untouched = files
  files_at adrift = rename path trashed files
  files_at stored = rename path trashed files

  abbrev pub job_at : Option ℕ → Phase → Job
  job_at acked ph = record j {
    acked_at = Option.map at_utc acked;
    transcript_path = some (path_at ph);
  }

  pub record InPhase (acked : Option ℕ) (ph : Phase) (w : World) : Type 0 where
    pub unique : UniqueIds w.db
    pub row : find_row j.job_id w.db ≡ some (to_row c (job_at acked ph))
    pub files_kept : w.files ≡ files_at ph

  pub get-InPhase :
      {acked : Option ℕ} {ph : Phase} {w : World}
      → IsLawful c
      → InPhase acked ph w
      → get c j.job_id w.db ≡ some (some (fixed c (job_at acked ph)))
  unfolding get
  get-InPhase {acked} {ph} L h = rw (get, h.row, from_row-to_row c L (job_at acked ph)) refl

  -- The UPDATE of `mark_acked` on a job that is not acknowledged, and on one that is.
  pub acks-InPhase :
      {ph : Phase} {w : World} (now : ℕ)
      → is_done j.status ≡ true
      → InPhase none ph w
      → ((ack_update c now j.job_id w.db).1 ≡ true)
        × InPhase (some now) ph (record w { db = (ack_update c now j.job_id w.db).0 })
  unfolding ack_update to_row iso
  acks-InPhase {ph} {w} now done h =
      let (succeeds, row) =
        update_one-accepts j.job_id may_ack (acked c now) (λ r. refl) w.db h.unique h.row
          (rw done refl) in
      (
        succeeds,
        record {
          unique = update_one-UniqueIds j.job_id may_ack (acked c now) (λ r. refl) w.db h.unique;
          row = row;
          files_kept = h.files_kept;
        },
      )

  pub acks-InPhase_again :
      {ph : Phase} {w : World} {t : ℕ} (now : ℕ)
      → is_done j.status ≡ true
      → InPhase (some t) ph w
      → ack_update c now j.job_id w.db ≡ (w.db, false)
  unfolding ack_update to_row iso
  acks-InPhase_again {w} now done h =
      update_one-refuses j.job_id may_ack (acked c now) w.db h.unique h.row (rw done refl)

  -- `update_transcript_path` after the file has moved.
  pub heals-InPhase :
      {a : Option ℕ} {w : World}
      → InPhase a adrift w
      → InPhase a stored (record w { db = (update_transcript_path j.job_id trashed w.db).0 })
  unfolding update_transcript_path to_row iso
  heals-InPhase {w = w} h = record {
    unique = update_one-UniqueIds j.job_id always (moved_to trashed) (λ r. refl) w.db h.unique;
    row =
        (update_one-accepts j.job_id always (moved_to trashed) (λ r. refl) w.db h.unique h.row
          refl).1;
    files_kept = h.files_kept;
  }

  module _ (m : Movable fs trash_dir parent path) (there : exists files path ≡ true) where
    -- The old path is not in the trash.
    pub outside_trash :
        (a : Attempt) (now_there : Files)
        → is_in_trash c (surroundings a) j.job_id (path_of (some path)) now_there ≡ some false
    outside_trash a now_there =
        rw
          (m.nonempty, m.parent_resolves, m.dir_resolves, text_eq_ne m.source_dir m.trash m.outside)
          refl

    -- The new one is, with the file.
    pub inside_trash :
        (a : Attempt)
        → is_in_trash c
            (surroundings a)
            j.job_id
            (path_of (some trashed))
            (rename path trashed files)
          ≡ some true
    unfolding rename
    inside_trash a =
        rw
          (
            m.trash_nonempty,
            m.inside,
            m.dir_resolves,
            text_eq_self m.trash,
            text_eq_self trashed,
            there,
          )
          refl

    pub moves :
        (move_to_trash fs trash_dir (some path) files
          ≡ some (files_at adrift, record { moved = true; destination = some trashed }))
        × (move_to_trash fs trash_dir (some path) (files_at adrift)
            ≡ some (files_at adrift, unmoved (some trashed)))
    moves =
        move_to_trash_again fs trash_dir files path m.source m.destination m.mkdir there m.replaces
          m.resolves m.trash_resolves m.apart m.path_apart
