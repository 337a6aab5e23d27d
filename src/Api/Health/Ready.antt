-- ===== src/Api/Health/Ready.antt =====
-- When `GET /ready` of src/local_transcription_service/api/health.py answers with 200.
use local_transcription_serv.Prelude.{
  pos, negsuc, ℕ, zero, suc, String, true, some, ◌≡◌, ◌↔◌, refl, ap, arith, Option-cases, inl, inr,
}
use local_transcription_serv.Pipeline.{Result, ok, raises}
use local_transcription_serv.Config.{Settings}
use local_transcription_serv.Stt.{Gateway, Client}
use local_transcription_serv.Stt
use local_transcription_serv.Stt.Ready.{Lists, is_ready-Lists}
use local_transcription_serv.Store.Ping.{ping_writable}
use local_transcription_serv.Stt.Engines.{litellm_engine}
use local_transcription_serv.Pipeline.Process.{Cache}
use local_transcription_serv.Pipeline.Engine.{SttEngine}
use local_transcription_serv.Pipeline.Stages.{RealPipeline}
use local_transcription_serv.Api.Health.{
  Version, returncode, timeout_error, os_error, fault, Probes, whisper_pipeline, ReadyResponse,
  check_db_writable, check_ffmpeg, check_stt_engine, build_readiness_report, ready,
}

-- The status of a reply; an exception ends in a 500.
abbrev pub status_of : Result ReadyResponse → ℕ
status_of (ok response) = response.status_code
status_of (raises exc) = 500

-- The write lock of the database can be taken, on a connection of its own.
abbrev pub CanWrite : Probes → Type 0
CanWrite p =
    (p.connects ≡ true) × (p.execute "BEGIN IMMEDIATE" ≡ true) × (p.execute "COMMIT" ≡ true)

-- ffmpeg is on the PATH and exits with 0 in time.
abbrev pub RunsFfmpeg : Probes → Type 0
RunsFfmpeg p =
    (path : String) × (p.which "ffmpeg" ≡ some path) × (p.ffmpeg_version ≡ returncode (pos 0))

module _ (p : Probes) where
  check_db_writable_iff : (check_db_writable p ≡ true) ↔ CanWrite p
  unfolding ping_writable
  check_db_writable_iff = (λ h. (ground arith, ground arith, ground arith), λ h. ground arith)

  check_ffmpeg_iff : (check_ffmpeg p ≡ ok true) ↔ RunsFfmpeg p
  unfolding check_ffmpeg
  check_ffmpeg_iff = (
    λ h. elim (Option-cases (p.which "ffmpeg")) [
      | inl e ↦ absurd (ground arith)
      | inr (path, e) ↦ (path, e, ran_well p.ffmpeg_version refl path e h)
    ],
    λ h. let found = h.1 in let ran = h.2 in ground arith,
  )
    where
      ran_well :
          (v : Version)
          → p.ffmpeg_version ≡ v
          → (path : String) → p.which "ffmpeg" ≡ some path
          → check_ffmpeg p ≡ ok true
          → v ≡ returncode (pos 0)
      ran_well (returncode (pos zero)) e path f h = refl
      ran_well (returncode (pos (suc n))) e path f h = absurd (ground arith)
      ran_well (returncode (negsuc n)) e path f h = absurd (ground arith)
      ran_well timeout_error e path f h = absurd (ground arith)
      ran_well os_error e path f h = absurd (ground arith)
      ran_well (fault kind text) e path f h = absurd (ground arith)

-- With the gateway's engine, `GET /ready` answers with 200 exactly if a new connection to the database
-- opens and takes and gives back the write lock (`BEGIN IMMEDIATE`, `COMMIT`), ffmpeg is on the PATH
-- and exits with 0 in time, and the gateway answers the request for its models with no error status and
-- a listing in which the model stands.
pub ready_iff :
    (p : Probes) (settings : Settings) (pipeline : RealPipeline) (g : Gateway) (client : Client)
    (meanwhile : Cache → Cache)
    → pipeline.stt_engine ≡ litellm_engine g client meanwhile
    → (status_of (ready p (some (whisper_pipeline pipeline)) settings) ≡ 200)
      ↔ (CanWrite p × RunsFfmpeg p × Lists g client.readiness_timeout_s client.model)
unfolding ready build_readiness_report check_stt_engine
ready_iff p settings pipeline g client meanwhile e =
    let answer : pipeline.stt_engine.is_ready ≡ ok (Stt.is_ready g client) =
      ap (λ (engine : SttEngine). engine.is_ready) e in
    (
      λ h. (
        (check_db_writable_iff p).0 (ground arith),
        (check_ffmpeg_iff p).0 (ground arith),
        (is_ready-Lists g client).0 (ground arith),
      ),
      λ h.
          let db = (check_db_writable_iff p).1 h.0 in
          let ffmpeg = (check_ffmpeg_iff p).1 h.1 in
          let listed = (is_ready-Lists g client).1 h.2 in ground arith,
    )
