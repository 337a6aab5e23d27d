-- ===== src/Transcripts/Move.antt =====
-- Where `move_to_trash` of src/local_transcription_service/queue/transcripts.py leaves a transcript.
use local_transcription_serv.Prelude.{
  String, true, false, Option, none, some, ◌≡◌, ◌≢◌, refl, ◌∙◌, arith, text_eq, text_eq_ne,
  text_eq_iff, text_eq_self, is_some, Bool-cases, Option-cases, inl, inr, if◌then◌else◌, sym, ap,
}
use local_transcription_serv.Transcripts.{
  Files, Rename, renamed, not_found, os_error, FileSystem, MoveOutcome, unmoved, exists, rename,
  in_trash, replace, same_place, discover, move_to_trash,
}

-- Where a file is reported, one is.
abbrev pub Lives : Files → Option String → Type 0
Lives files none = Unit {0}
Lives files (some path) = exists files path ≡ true

-- What the call made of the files: it moved the source, or it changed nothing.
abbrev pub Kept :
    FileSystem → String → Option String → Files → Option (Files × MoveOutcome) → Type 0
Kept fs trash_dir source files none = Unit {0}
Kept fs trash_dir none files (some (files', outcome)) = (files' ≡ files) × (outcome ≡ unmoved none)
Kept fs trash_dir (some path) files (some (files', outcome)) =
    Lives files' outcome.destination
    × (if outcome.moved
        then (exists files path ≡ true)
          × (outcome.destination ≡ some (in_trash fs trash_dir path))
          × (files' (in_trash fs trash_dir path) ≡ files path)
          × ((p : String) → p ≢ path → p ≢ in_trash fs trash_dir path → files' p ≡ files p)
        else (files' ≡ files))

module _ (fs : FileSystem) (trash_dir : String) (files : Files) where
  replace-Kept :
      (path : String)
      → exists files path ≡ true
      → Kept fs trash_dir (some path) files (some (replace fs trash_dir path files))
  unfolding replace rename
  replace-Kept path there = by_rename (fs.replace path (in_trash fs trash_dir path)) refl
    where
      by_rename :
          (r : Rename)
          → fs.replace path (in_trash fs trash_dir path) ≡ r
          → Kept fs trash_dir (some path) files (some (replace fs trash_dir path files))
      by_rename renamed e =
          rw (e, replace, text_eq_self (in_trash fs trash_dir path))
            (
              there,
              (there, refl, refl, λ p n m. rw (rename, text_eq_ne p _ m, text_eq_ne p path n) refl),
            )
      by_rename not_found e = rw (e, replace) (tt, refl)
      by_rename os_error e = rw (e, replace) (tt, refl)

  discover-Kept :
      (path : String) → Kept fs trash_dir (some path) files (discover fs trash_dir path files)
  unfolding discover
  discover-Kept path = elim (Bool-cases (exists files (in_trash fs trash_dir path))) [
    | inr e ↦ rw (e, discover) (tt, refl)
    | inl e ↦ elim (Option-cases (fs.resolve (in_trash fs trash_dir path))) [
      | inl d ↦ rw (e, d, discover) tt
      | inr (d, g) ↦ elim (Option-cases (fs.resolve path)) [
        | inl h ↦ rw (e, g, h, discover) tt
        | inr (s, h) ↦ elim (Bool-cases (text_eq d s)) [
          | inl q ↦ rw (e, g, h, q, discover) (tt, refl)
          | inr q ↦ rw (e, g, h, q, discover) (e, refl)
        ]
      ]
    ]
  ]

  same_place-files :
      (path : String)
      → ((p q d : String) → fs.resolve p ≡ some d → fs.resolve q ≡ some d → files p ≡ files q)
      → same_place fs trash_dir path ≡ true
      → files path ≡ files (in_trash fs trash_dir path)
  unfolding same_place
  same_place-files path alias h = elim (Option-cases (fs.resolve path)) [
    | inl e ↦ absurd (ground arith)
    | inr (s, e) ↦ elim (Option-cases (fs.resolve (in_trash fs trash_dir path))) [
      | inl f ↦ absurd (ground arith)
      | inr (d, f) ↦
          (let same : s ≡ d = (text_eq_iff s d).0 (ground arith) in
            alias path (in_trash fs trash_dir path) d (e ∙ ap some same) f)
    ]
  ]

  -- A call that returns either moved the source (its content stands in the trash under the same
  -- name, and every other path holds what it held) or changed no file; and a destination that it
  -- reports is a file, provided that `resolve` takes two paths to one place only if they are the
  -- same file.
  pub move_to_trash-Kept :
      (source : Option String)
      → ((p q d : String) → fs.resolve p ≡ some d → fs.resolve q ≡ some d → files p ≡ files q)
      → Kept fs trash_dir source files (move_to_trash fs trash_dir source files)
  unfolding move_to_trash
  move_to_trash-Kept none alias = elim (Bool-cases (fs.mkdir trash_dir)) [
    | inl e ↦ rw (e, move_to_trash) (refl, refl)
    | inr e ↦ rw (e, move_to_trash) tt
  ]
  move_to_trash-Kept (some path) alias = elim (Bool-cases (fs.mkdir trash_dir)) [
    | inr e ↦ rw (e, move_to_trash) tt
    | inl e ↦ elim (Bool-cases (exists files path)) [
      | inr f ↦ rw (e, f, move_to_trash) (discover-Kept path)
      | inl f ↦ elim (Bool-cases (same_place fs trash_dir path)) [
        | inr g ↦ rw (e, f, g, move_to_trash) (replace-Kept path f)
        | inl g ↦
            rw (e, f, g, move_to_trash) (ap is_some (sym (same_place-files path alias g)) ∙ f, refl)
      ]
    ]
  ]

  same_place_apart :
      (path s d : String)
      → fs.resolve path ≡ some s
      → fs.resolve (in_trash fs trash_dir path) ≡ some d
      → s ≢ d
      → same_place fs trash_dir path ≡ false
  unfolding same_place
  same_place_apart path s d e f n = rw (same_place, e, f, text_eq_ne s d n) refl

  rename-source :
      (source destination : String)
      → source ≢ destination
      → exists (rename source destination files) source ≡ false
  unfolding rename
  rename-source source destination n =
      rw (text_eq_ne source destination n, text_eq_self source) refl

  rename-destination :
      (source destination : String) → rename source destination files destination ≡ files source
  unfolding rename
  rename-destination source destination = rw (text_eq_self destination) refl

  -- A move whose result was lost is found again. If the rename succeeds, to another place and
  -- under another path, the call reports the path in the trash; repeated with the old path, it
  -- changes no file and reports the same destination.
  pub move_to_trash_again :
      (path s d : String)
      → fs.mkdir trash_dir ≡ true
      → exists files path ≡ true
      → fs.replace path (in_trash fs trash_dir path) ≡ renamed
      → fs.resolve path ≡ some s
      → fs.resolve (in_trash fs trash_dir path) ≡ some d
      → s ≢ d
      → path ≢ in_trash fs trash_dir path
      → let destination = in_trash fs trash_dir path in
        let files' = rename path destination files in
        (move_to_trash fs trash_dir (some path) files
          ≡ some (files', record { moved = true; destination = some destination }))
        × (move_to_trash fs trash_dir (some path) files'
            ≡ some (files', unmoved (some destination)))
  unfolding move_to_trash replace discover
  move_to_trash_again path s d mk there done e f n p =
      let other : same_place fs trash_dir path ≡ false = same_place_apart path s d e f n in
      let gone = rename-source path (in_trash fs trash_dir path) p in
      let arrived = ap is_some (rename-destination path (in_trash fs trash_dir path)) ∙ there in
      (
        rw (mk, there, other, replace, done) refl,
        rw (mk, gone, discover, arrived, e, f, text_eq_ne d s (λ q. n (sym q))) refl,
      )
