-- ===== src/Transcripts/Effect.antt =====
-- What `move_to_trash` of src/local_transcription_service/queue/transcripts.py does to the files.
use local_transcription_serv.Prelude.{
  String, true, Option, none, some, ◌≡◌, refl, ◌⊎◌, inl, inr, Option-cases, Bool-cases,
}
use local_transcription_serv.Transcripts.{
  Files, Rename, renamed, not_found as rename_not_found, os_error, FileSystem, MoveOutcome, exists,
  rename, in_trash, replace, same_place, discover, move_to_trash,
}

-- No file has changed, or one file was renamed into the trash under its own name.
abbrev pub Moved : FileSystem → String → Files → Files → Type 0
Moved fs trash_dir files files' =
    (files' ≡ files)
    ⊎ ((path : String) × (exists files path ≡ true)
        × (files' ≡ rename path (in_trash fs trash_dir path) files))

replace-Moved :
    (fs : FileSystem) (trash_dir path : String) (files : Files)
    → exists files path ≡ true
    → Moved fs trash_dir files (replace fs trash_dir path files).0
unfolding replace
replace-Moved fs trash_dir path files there =
    by_rename (fs.replace path (in_trash fs trash_dir path)) refl
  where
    by_rename :
        (r : Rename)
        → fs.replace path (in_trash fs trash_dir path) ≡ r
        → Moved fs trash_dir files (replace fs trash_dir path files).0
    by_rename renamed e = rw (e, replace) (inr (path, there, refl))
    by_rename rename_not_found e = rw (e, replace) (inl refl)
    by_rename os_error e = rw (e, replace) (inl refl)

-- What a move that returns did.
abbrev pub MovedBy : FileSystem → String → Files → Option (Files × MoveOutcome) → Type 0
MovedBy fs trash_dir files none = Unit {0}
MovedBy fs trash_dir files (some (files', outcome)) = Moved fs trash_dir files files'

module _ (fs : FileSystem) (trash_dir : String) (files : Files) where
  discover-MovedBy : (path : String) → MovedBy fs trash_dir files (discover fs trash_dir path files)
  unfolding discover
  discover-MovedBy path = elim (Bool-cases (exists files (in_trash fs trash_dir path))) [
    | inr e ↦ rw (e, discover) (inl refl)
    | inl e ↦ elim (Option-cases (fs.resolve (in_trash fs trash_dir path))) [
      | inl d ↦ rw (e, d, discover) tt
      | inr (d, g) ↦ elim (Option-cases (fs.resolve path)) [
        | inl h ↦ rw (e, g, h, discover) tt
        | inr (s, h) ↦ rw (e, g, h, discover) (inl refl)
      ]
    ]
  ]

  pub move_to_trash-MovedBy :
      (source : Option String)
      → MovedBy fs trash_dir files (move_to_trash fs trash_dir source files)
  unfolding move_to_trash
  move_to_trash-MovedBy none = elim (Bool-cases (fs.mkdir trash_dir)) [
    | inl e ↦ rw (e, move_to_trash) (inl refl)
    | inr e ↦ rw (e, move_to_trash) tt
  ]
  move_to_trash-MovedBy (some path) = elim (Bool-cases (fs.mkdir trash_dir)) [
    | inr e ↦ rw (e, move_to_trash) tt
    | inl e ↦ elim (Bool-cases (exists files path)) [
      | inr f ↦ rw (e, f, move_to_trash) (discover-MovedBy path)
      | inl f ↦ elim (Bool-cases (same_place fs trash_dir path)) [
        | inr g ↦ rw (e, f, g, move_to_trash) (replace-Moved fs trash_dir path files f)
        | inl g ↦ rw (e, f, g, move_to_trash) (inl refl)
      ]
    ]
  ]
