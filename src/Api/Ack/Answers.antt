-- ===== src/Api/Ack/Answers.antt =====
-- What the answer of `ack_job` in src/local_transcription_service/api/jobs.py says of the files.
use local_transcription_serv.Prelude.{
  String, Bool, true, false, Option, none, some, ◌≡◌, ◌∙◌, ap, sym, ◌⊎◌, inl, inr, arith,
  text_eq_iff, Option-cases, Bool-cases,
}
use local_transcription_serv.Models.{Calendar, Job}
use local_transcription_serv.Transcripts.{Files, exists}
use local_transcription_serv.Api.{
  Reply, success, http_exception, validation_error, unhandled, AckResponse,
}
use local_transcription_serv.Api.Ack.{Surroundings, World, path_of, is_in_trash, respond}

-- An answer that claims the transcript was moved is true of the files.
abbrev pub Truthful : Surroundings → Files → Reply AckResponse → Type 0
Truthful e files (success r) =
    (r.transcript_moved ≡ false)
    ⊎ ((path : String) × (exists files path ≡ true)
        × (e.file_system.resolve (e.parent path) ≡ e.file_system.resolve e.trash_dir))
Truthful e files (http_exception status_code code message) = Unit {0}
Truthful e files validation_error = Unit {0}
Truthful e files unhandled = Unit {0}

module _ (c : Calendar) (e : Surroundings) (job_id : String) where
  -- A path that `is_in_trash` accepts.
  is_in_trash-true :
      (path : Option String) (files : Files)
      → is_in_trash c e job_id path files ≡ some true
      → (p : String) × (exists files p ≡ true)
        × (e.file_system.resolve (e.parent p) ≡ e.file_system.resolve e.trash_dir)
  is_in_trash-true none files f = absurd (ground arith)
  is_in_trash-true (some path) files f =
      elim (Option-cases (e.file_system.resolve (e.parent path))) [
        | inl g ↦ absurd (ground arith)
        | inr (a, g) ↦ elim (Option-cases (e.file_system.resolve e.trash_dir)) [
          | inl k ↦ absurd (ground arith)
          | inr (t, k) ↦
              (let same : a ≡ t = (text_eq_iff a t).0 (ground arith) in
                (path, ground arith, g ∙ ap some same ∙ sym k))
        ]
      ]

  pub respond-Truthful :
      (newly_acked : Bool) (destination : Option String) (job : Job) (w : World)
      → Truthful e w.files (respond c e job_id newly_acked destination job w).1
  unfolding respond
  respond-Truthful newly_acked destination job w =
      elim (Option-cases (is_in_trash c e job_id (path_of job.transcript_path) w.files)) [
        | inl f ↦ rw (f, respond) tt
        | inr (moved_now, f) ↦ elim (Option-cases job.acked_at) [
          | inl g ↦ rw (f, g, respond) tt
          | inr (at, g) ↦ elim (Bool-cases moved_now) [
            | inl b ↦
                rw (f, g, respond)
                  (inr (is_in_trash-true (path_of job.transcript_path) w.files (f ∙ ap some b)))
            | inr b ↦ rw (f, g, respond) (inl b)
          ]
        ]
      ]
