-- ===== src/Api/Ack/Converges.antt =====
-- Acknowledgements that the database interrupts, and the one that it does not: `ack_job` of
-- src/local_transcription_service/api/jobs.py.
use local_transcription_serv.Prelude.{
  ℕ, String, true, Option, none, some, List, [], ◌∷◌, ◌≡◌, refl, text_eq_self,
}
use local_transcription_serv.Models.{Calendar, IsLawful, Job}
use local_transcription_serv.Models.Rows.{fixed}
use local_transcription_serv.Models.Status.{is_done}
use local_transcription_serv.Transcripts.{Files, FileSystem, exists, rename}
use local_transcription_serv.Api.{success, get_result}
use local_transcription_serv.Api.Result.{get_result_iff}
use local_transcription_serv.Api.Ack.{Surroundings, World, ack_job}
use local_transcription_serv.Api.Ack.Phases.{
  Attempt, Movable, Phase, untouched, stored, surroundings, trashed, job_at, InPhase, get-InPhase,
}
use local_transcription_serv.Api.Ack.Interrupted.{Finished, ack_job-Ends}

module _ (c : Calendar) (fs : FileSystem) (trash_dir : String) (parent : String → String) (j : Job)
    (path : String) (files : Files) where
  abbrev At : Option ℕ → Phase → World → Type 0
  At = InPhase c fs trash_dir parent j path files

  abbrev env : Attempt → Surroundings
  env = surroundings c fs trash_dir parent j path files

  abbrev destination : String
  destination = trashed c fs trash_dir parent j path files

  -- The world after some acknowledgements.
  abbrev pub ack_all : List Attempt → World → World
  ack_all [] w = w
  ack_all (a ∷ attempts) w = ack_all attempts (ack_job c (env a) j.job_id w).0

  module _ (L : IsLawful c) (done : is_done j.status ≡ true) (m : Movable fs trash_dir parent path)
      (there : exists files path ≡ true) where
    ack_all-InPhase :
        (attempts : List Attempt) (w : World) (acked : Option ℕ) (ph : Phase)
        → At acked ph w
        → (acked' : Option ℕ) × (ph' : Phase) × At acked' ph' (ack_all attempts w)
    ack_all-InPhase [] w acked ph h = (acked, ph, h)
    ack_all-InPhase (a ∷ attempts) w acked ph h =
        let (acked', ph', h') =
          (ack_job-Ends c fs trash_dir parent j path files a L done m there acked ph w h).0 in
        ack_all-InPhase attempts _ acked' ph' h'

    get_result-stored :
        {t : ℕ} {w : World}
        → At (some t) stored w
        → get_result c j.job_id w.db w.files ≡ success destination
    unfolding rename
    get_result-stored {t} {w} h = (get_result_iff c j.job_id w.db w.files destination).1 (
      fixed c (job_at c fs trash_dir parent j path files (some t) stored),
      get-InPhase c fs trash_dir parent j path files L h,
      (done, refl, rw (h.files_kept, text_eq_self destination) there),
    )

    -- With a lawful calendar, take a job that is done, whose transcript is a file outside the trash
    -- that can be moved there, and acknowledgements that nobody else interferes with. However many
    -- of them the database interrupts, and at whichever of their statements, the next one that it
    -- does not interrupt answers that the transcript is in the trash, and the row says so; the
    -- result of the job is then the file in the trash, which holds what the transcript held.
    pub acks_converge :
        (attempts : List Attempt) (last : Attempt)
        → ((k : ℕ) → last.db_error k ≡ none)
        → (w : World) (acked : Option ℕ)
        → InPhase c fs trash_dir parent j path files acked untouched w
        → let ended =
            ack_job c
              (surroundings c fs trash_dir parent j path files last)
              j.job_id
              (ack_all attempts w) in
          Finished c fs trash_dir parent j path files ended
          × (get_result c j.job_id ended.0.db ended.0.files
              ≡ success (trashed c fs trash_dir parent j path files))
          × (ended.0.files (trashed c fs trash_dir parent j path files) ≡ files path)
    unfolding rename
    acks_converge attempts last clear w acked h =
        let (acked', ph, h') = ack_all-InPhase attempts w acked untouched h in
        let (t, again, settled, replies) =
          (ack_job-Ends c fs trash_dir parent j path files last L done m there acked' ph
              (ack_all attempts w) h').1
            clear in
        (
          (t, again, settled, replies),
          get_result-stored settled,
          rw (settled.files_kept, text_eq_self destination) refl,
        )
