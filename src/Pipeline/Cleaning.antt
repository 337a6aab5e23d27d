-- ===== src/Pipeline/Cleaning.antt =====
-- What the clean-up leaves: `cleanup_job_files` and `RealPipeline.transcribe` of
-- src/local_transcription_service/pipeline/stages.py.
use mathlib.Core.Option
use Prim.Native.String.{count}
use text.Mathlib.TextEquality.{starts_with_iff}
use text.Mathlib.TextLemmas.{append_inj, append_assoc}
use local_transcription_serv.Prelude.{
  String, ◌<>◌, Bool, true, false, not, none, some, List, [], ◌∷◌, ◌≡◌, ◌≢◌, refl, sym, ◌∙◌,
  starts_with, filter, Bool-cases, inl, inr, arith,
}
use local_transcription_serv.Pipeline.{Result}
use local_transcription_serv.Pipeline.Process.{Entry, entries, Machine, Cache}
use local_transcription_serv.Pipeline.Cache.{is_job_file, unlink_files, cleanup_job_files}
use local_transcription_serv.Pipeline.Stages.{RealPipeline, run_stages, cleaned, real_transcribe}

abbrev pub without_job : String → List Entry → List Entry
without_job job_id es = filter (λ e. not (is_job_file job_id e)) es

-- Whether every unlink of a file of the job succeeds.
abbrev pub Removable : Machine → String → Type 0
Removable m job_id =
    (name : String) → starts_with name (job_id <> ".") ≡ true → m.unlink name ≡ true

module _ (m : Machine) (job_id : String) where
  unlink_files_all :
      (es : List Entry) → Removable m job_id → (unlink_files m job_id es).1 ≡ without_job job_id es
  unfolding unlink_files
  unlink_files_all [] h = refl
  unlink_files_all (e ∷ es) h = ground (arith, unlink_files_all es h, h e.name)

  unlink_files_other :
      (keep : Entry → Bool)
      → ((e : Entry) → keep e ≡ true → is_job_file job_id e ≡ false)
      → (es : List Entry) → filter keep (unlink_files m job_id es).1 ≡ filter keep es
  unfolding unlink_files
  unlink_files_other keep h [] = refl
  unlink_files_other keep h (e ∷ es) = ground (arith, unlink_files_other keep h es, h e)

-- Two jobs whose ids have the same length have no file in common.
job_files-disjoint :
    (job other : String) (e : Entry)
    → count job ≡ count other
    → job ≢ other
    → is_job_file other e ≡ true
    → is_job_file job e ≡ false
unfolding starts_with
job_files-disjoint job other e same apart h = elim (Bool-cases (is_job_file job e)) [
  | inr f ↦ f
  | inl f ↦
      let (u, p) = (starts_with_iff e.name (job <> ".")).0 (ground arith) in
      let (v, q) = (starts_with_iff e.name (other <> ".")).0 (ground arith) in
      absurd (
        apart
          (append_inj (sym (append_assoc job "." u) ∙ p ∙ sym q ∙ append_assoc other "." v) same).0)
]

module _ (m : Machine) (p : RealPipeline) (job_id : String) where
  cleaned_all :
      (stopped : Cache × Result String)
      → m.iterdir ≡ none
      → Removable m job_id
      → cleaned m p job_id stopped ≡ (Option.map (without_job job_id) stopped.0, stopped.1)
  unfolding cleaned cleanup_job_files
  cleaned_all (none, result) listed h = refl
  cleaned_all (some es, result) listed h = ground (arith, unlink_files_all m job_id es h)

  cleaned_other :
      (keep : Entry → Bool)
      → ((e : Entry) → keep e ≡ true → is_job_file job_id e ≡ false)
      → (stopped : Cache × Result String)
      → filter keep (entries (cleaned m p job_id stopped).0) ≡ filter keep (entries stopped.0)
  unfolding cleaned cleanup_job_files
  cleaned_other keep h (none, result) = refl
  cleaned_other keep h (some es, result) = ground (arith, unlink_files_other m job_id keep h es)

-- If the cache can be listed and the job's files can be removed, then whatever the stages come to,
-- `transcribe` comes to the same text or exception, no file of the job is left, and every other
-- entry of the cache stays where the stages left it.
pub real_transcribe_cleans :
    (m : Machine) (p : RealPipeline) (video_url job_id : String) (cache : Cache)
    → m.iterdir ≡ none
    → Removable m job_id
    → let (stopped, result) = run_stages m p video_url job_id cache in
      real_transcribe m p video_url job_id cache ≡ (Option.map (without_job job_id) stopped, result)
unfolding real_transcribe
real_transcribe_cleans m p video_url job_id cache listed h =
    cleaned_all m p job_id (run_stages m p video_url job_id cache) listed h

-- Whatever the stages come to and whichever removals fail, the clean-up of `transcribe` keeps all
-- files of another job whose id has the same length.
real_transcribe_spares :
    (m : Machine) (p : RealPipeline) (video_url job_id other : String) (cache : Cache)
    → count job_id ≡ count other
    → job_id ≢ other
    → filter (is_job_file other) (entries (real_transcribe m p video_url job_id cache).0)
      ≡ filter (is_job_file other) (entries (run_stages m p video_url job_id cache).0)
unfolding real_transcribe
real_transcribe_spares m p video_url job_id other cache same apart =
    cleaned_other m p job_id (is_job_file other)
      (λ e h. job_files-disjoint job_id other e same apart h)
      (run_stages m p video_url job_id cache)
