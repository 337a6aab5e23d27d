-- ===== src/Transcripts.antt =====
-- The move of a transcript into the trash: src/local_transcription_service/queue/transcripts.py.
-- `pathlib` and the outcomes of the file system's calls are the fields of `FileSystem`; logging is
-- not modelled. The files are a function from paths.
pub mod Move
pub mod Effect
use local_transcription_serv.Prelude.{
  String, Bool, true, false, Option, none, some, not, ◌&&◌, ◌>>=◌, text_eq, is_some, if◌then◌else◌,
}
use mathlib.Core.Option

abbrev pub Files : Type 0
Files = String → Option String

-- What `os.replace` comes to.
pub data Rename : Type 0 where
  renamed : Rename
  not_found : Rename
  os_error : Rename

pub record FileSystem : Type 0 where
  -- the last part of a path, and `dir / name`
  pub name : String → String
  pub join : String → String → String
  -- `none` is an OSError or a ValueError
  pub resolve : String → Option String
  -- whether `mkdir(parents=True, exist_ok=True)` succeeds
  pub mkdir : String → Bool
  pub replace : String → String → Rename

pub record MoveOutcome : Type 0 where
  pub moved : Bool
  pub destination : Option String

abbrev pub unmoved : Option String → MoveOutcome
unmoved destination = record { moved = false; destination = destination }

-- `path.exists()`
abbrev pub exists : Files → String → Bool
exists files path = is_some (files path)

-- The files after a rename.
unfoldable pub rename : String → String → Files → Files
rename source destination files path =
    if text_eq path destination
    then files source
    else (if text_eq path source then none else files path)

module _ (fs : FileSystem) (trash_dir : String) where
  abbrev pub in_trash : String → String
  in_trash source = fs.join trash_dir (fs.name source)

  -- `source.replace(destination)`
  unfoldable pub replace : String → Files → Files × MoveOutcome
  replace source files = elim (fs.replace source (in_trash source)) [
    | renamed ↦ (
      rename source (in_trash source) files,
      record { moved = true; destination = some (in_trash source) },
    )
    | not_found ↦ (files, unmoved none)
    | os_error ↦ (files, unmoved none)
  ]

  -- `source.resolve() == destination.resolve()`, where a failure of either is no equality
  unfoldable pub same_place : String → Bool
  same_place source = elim (fs.resolve source) [
    | none ↦ false
    | some s ↦ elim (fs.resolve (in_trash source)) [ none ↦ false | some d ↦ text_eq s d ]
  ]

  -- The source is gone: the canonical name in the trash, if it is another place. Here a failure of
  -- `resolve` leaves the function.
  unfoldable pub discover : String → Files → Option (Files × MoveOutcome)
  discover source files =
      if exists files (in_trash source)
      then (do
        d ← fs.resolve (in_trash source)
        s ← fs.resolve source
        some (files, unmoved (if text_eq d s then none else some (in_trash source))))
      else some (files, unmoved none)

  -- `move_to_trash`; `none` is an exception.
  unfoldable pub move_to_trash : Option String → Files → Option (Files × MoveOutcome)
  move_to_trash source files = if fs.mkdir trash_dir then moved_from source else none
    where
      moved_from : Option String → Option (Files × MoveOutcome)
      moved_from none = some (files, unmoved none)
      moved_from (some path) =
          if exists files path
          then (if same_place path
              then some (files, unmoved (some (in_trash path)))
              else some (replace path files))
          else discover path files
