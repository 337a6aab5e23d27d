-- ===== src/Api/Ack/Interrupted.antt =====
-- What one acknowledgement leaves, wherever the database interrupts it: `ack_job` of
-- src/local_transcription_service/api/jobs.py.
use local_transcription_serv.Prelude.{
  ℕ, String, Bool, true, false, not, Option, none, some, ◌≡◌, refl, ◌∙◌, sym, Option-cases, inl,
  inr,
}
use local_transcription_serv.Models.{Calendar, IsLawful, Job, at_utc, aware}
use local_transcription_serv.Models.Rows.{fixed}
use local_transcription_serv.Models.Status.{is_done}
use local_transcription_serv.Store.Transitions.{ack_update, update_transcript_path}
use local_transcription_serv.Transcripts.{Files, FileSystem, exists}
use local_transcription_serv.Api.{Reply, success, AckResponse}
use local_transcription_serv.Api.Ack.{
  Surroundings, World, statement, respond, reread, store_path, heal_path, move_transcript,
  read_acked, mark_acked_update, preflight, ack_job,
}
use local_transcription_serv.Api.Ack.Phases.{
  Attempt, Movable, Phase, untouched, adrift, stored, surroundings, trashed, job_at, InPhase,
  get-InPhase, acks-InPhase, acks-InPhase_again, heals-InPhase, outside_trash, inside_trash, moves,
}

module _ (c : Calendar) (fs : FileSystem) (trash_dir : String) (parent : String → String) (j : Job)
    (path : String) (files : Files) where
  abbrev pub At : Option ℕ → Phase → World → Type 0
  At = InPhase c fs trash_dir parent j path files

  abbrev pub env : Attempt → Surroundings
  env = surroundings c fs trash_dir parent j path files

  abbrev pub destination : String
  destination = trashed c fs trash_dir parent j path files

  abbrev pub acked_job : ℕ → Phase → Job
  acked_job t = job_at c fs trash_dir parent j path files (some t)

  -- The acknowledgement is through: the row and the file say so, and the reply does.
  abbrev pub Finished : World × Reply AckResponse → Type 0
  Finished (w, reply) =
      (t : ℕ) × (again : Bool) × InPhase c fs trash_dir parent j path files (some t) stored w
      × (reply
          ≡ success (record {
            job_id = j.job_id;
            acked_at = at_utc t;
            already_acked = again;
            transcript_moved = true;
            transcript_path = some destination;
          }))

  -- An attempt leaves the transcript in some phase, and a clear one finishes.
  abbrev pub Ends : Attempt → World × Reply AckResponse → Type 0
  Ends a r =
      ((acked : Option ℕ) × (ph : Phase) × At acked ph r.0)
      × (((k : ℕ) → a.db_error k ≡ none) → Finished r)

  module _ (a : Attempt) where
    abbrev pub here_ack : World → World × Reply AckResponse
    here_ack = ack_job c (env a) j.job_id

    statement-Ends :
        (k : ℕ) (w : World) (next : World → World × Reply AckResponse)
        → ((acked : Option ℕ) × (ph : Phase) × At acked ph w)
        → Ends a (next w)
        → Ends a (statement c (env a) j.job_id k w next)
    statement-Ends k w next before passed = elim (Option-cases (a.db_error k)) [
      | inl f ↦ rw (f, statement) passed
      | inr (text, f) ↦ rw (f, statement) (before, λ clear. absurd (clash (sym (clear k) ∙ f)))
    ]
      where
        clash : {text : String} → none ≡ some text → ⊥
        clash e = cc

    module _ (L : IsLawful c) (done : is_done j.status ≡ true)
        (m : Movable fs trash_dir parent path) (there : exists files path ≡ true) where
      respond-Ends :
          {t : ℕ} (newly_acked : Bool) (w : World)
          → At (some t) stored w
          → Ends a (
              respond c
                (env a)
                j.job_id
                newly_acked
                (some destination)
                (fixed c (acked_job t stored))
                w)
      unfolding respond aware
      respond-Ends {t} newly_acked w h =
          let eq = inside_trash c fs trash_dir parent j path files m there a in
          (
            (some t, stored, h),
            λ clear. (t, not newly_acked, h, rw (h.files_kept, eq, respond) refl),
          )

      -- From `update_transcript_path` on.
      heal_path-Ends :
          {t : ℕ} (newly_acked : Bool) (job : Job) (w : World)
          → At (some t) adrift w
          → Ends a (heal_path c (env a) j.job_id newly_acked destination job w)
      unfolding heal_path store_path reread
      heal_path-Ends {t} newly_acked job w h =
          let healed = heals-InPhase c fs trash_dir parent j path files h in
          let w' = record w { db = (update_transcript_path j.job_id destination w.db).0 } in
          statement-Ends 3 w (store_path c (env a) j.job_id newly_acked destination job)
            (some t, adrift, h)
            (statement-Ends 4 w' (reread c (env a) j.job_id newly_acked destination job)
              (some t, stored, healed)
              (rw (get-InPhase c fs trash_dir parent j path files L healed, reread)
                (respond-Ends newly_acked w' healed)))

      move_transcript-Ends :
          {t : ℕ} (newly_acked : Bool) (ph : Phase) (w : World)
          → At (some t) ph w
          → Ends a (move_transcript c (env a) j.job_id newly_acked (fixed c (acked_job t ph)) w)
      unfolding move_transcript
      move_transcript-Ends newly_acked stored w h =
          let eq = inside_trash c fs trash_dir parent j path files m there a in
          rw (h.files_kept, eq, m.trash_nonempty, move_transcript) (respond-Ends newly_acked w h)
      move_transcript-Ends newly_acked untouched w h =
          let eq = outside_trash c fs trash_dir parent j path files m there a w.files in
          rw
            (
              eq,
              move_transcript,
              m.nonempty,
              h.files_kept,
              (moves c fs trash_dir parent j path files m there).0,
            )
            (heal_path-Ends newly_acked _ _
              (record { unique = h.unique; row = h.row; files_kept = refl }))
      move_transcript-Ends newly_acked adrift w h =
          let eq = outside_trash c fs trash_dir parent j path files m there a w.files in
          rw
            (
              eq,
              move_transcript,
              m.nonempty,
              h.files_kept,
              (moves c fs trash_dir parent j path files m there).1,
            )
            (heal_path-Ends newly_acked _ _
              (record { unique = h.unique; row = h.row; files_kept = refl }))

      read_acked-Ends :
          {t : ℕ} (newly_acked : Bool) (ph : Phase) (w : World)
          → At (some t) ph w
          → Ends a (read_acked c (env a) j.job_id newly_acked w)
      unfolding read_acked
      read_acked-Ends newly_acked ph w h =
          rw (get-InPhase c fs trash_dir parent j path files L h, read_acked)
            (move_transcript-Ends newly_acked ph w h)

      mark_acked-Ends :
          (acked : Option ℕ) (ph : Phase) (w : World)
          → At acked ph w
          → Ends a (mark_acked_update c (env a) j.job_id w)
      unfolding mark_acked_update
      mark_acked-Ends none ph w h =
          let (newly, h') = acks-InPhase c fs trash_dir parent j path files a.now done h in
          let (db, newly_acked) = ack_update c a.now j.job_id w.db in
          statement-Ends 2 (record w { db = db }) (read_acked c (env a) j.job_id newly_acked)
            (some a.now, ph, h') (read_acked-Ends newly_acked ph (record w { db = db }) h')
      mark_acked-Ends (some t) ph w h =
          rw (acks-InPhase_again c fs trash_dir parent j path files a.now done h) (
            statement-Ends 2 w (read_acked c (env a) j.job_id false) (some t, ph, h)
              (read_acked-Ends false ph w h))

      pub ack_job-Ends :
          (acked : Option ℕ) (ph : Phase) (w : World) → At acked ph w → Ends a (here_ack w)
      unfolding ack_job preflight
      ack_job-Ends acked ph w h =
          statement-Ends 0 w (preflight c (env a) j.job_id) (acked, ph, h)
            (rw (get-InPhase c fs trash_dir parent j path files L h, preflight, done)
              (statement-Ends 1 w (mark_acked_update c (env a) j.job_id) (acked, ph, h)
                (mark_acked-Ends acked ph w h)))
