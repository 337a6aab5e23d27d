-- ===== src/Stt/Uploads.antt =====
-- When the client uploads audio: the preflight of `transcribe` in
-- src/local_transcription_service/stt/litellm_whisper.py against `is_ready`.
use local_transcription_serv.Prelude.{
  String, Bool, true, false, Option, List, ◌≡◌, refl, any, text_eq, Bool-cases, inl, inr, ◌&&◌, ◌↔◌,
  arith,
}
use local_transcription_serv.Pipeline.{Result, ok, raises}
use local_transcription_serv.Stt.{
  Read, bytes, os_error, Request, get_models, post_audio, Gateway, Client, list_models, upload,
  transcribe, is_ready,
}
use local_transcription_serv.Stt.Ready.{Lists, is_ready-Lists}

abbrev pub is_upload : Request → Bool
is_upload (get_models timeout_s) = false
is_upload (post_audio timeout_s model language name audio) = true

abbrev pub is_read : Read → Bool
is_read (bytes audio) = true
is_read (os_error kind text) = false

-- The preflight of `transcribe` asks what `is_ready` asks, with another timeout.
any-is_upload :
    (g : Gateway) (client : Client) (wav_path : String) (language : Option String)
    → any is_upload (transcribe g client wav_path language).0 ≡ (
        is_ready g (record client { readiness_timeout_s = client.timeout_s })
        && is_read (g.read_bytes wav_path))
unfolding transcribe upload is_ready
any-is_upload g client wav_path language = by_models (list_models g client.timeout_s) refl
  where
    by_read :
        (r : Read)
        → g.read_bytes wav_path ≡ r
        → any is_upload (upload g client wav_path language).0 ≡ is_read (g.read_bytes wav_path)
    by_read (os_error kind text) e = rw (e, upload) refl
    by_read (bytes audio) e = rw (e, upload) refl

    by_models :
        (r : Result (List String))
        → list_models g client.timeout_s ≡ r
        → any is_upload (transcribe g client wav_path language).0 ≡ (
            is_ready g (record client { readiness_timeout_s = client.timeout_s })
            && is_read (g.read_bytes wav_path))
    by_models (raises exc) e = rw (e, transcribe, is_ready) refl
    by_models (ok models) e = elim (Bool-cases (any (text_eq client.model) models)) [
      | inl b ↦ rw (e, transcribe, is_ready, b) (by_read (g.read_bytes wav_path) refl)
      | inr b ↦ rw (e, transcribe, is_ready, b) refl
    ]

-- The audio is uploaded exactly if the gateway answers the request for its models, with the timeout of
-- a transcription, with no error status and a listing in which the model stands, and the file can be
-- read.
pub transcribe_uploads :
    (g : Gateway) (client : Client) (wav_path : String) (language : Option String)
    → (any is_upload (transcribe g client wav_path language).0 ≡ true) ↔ (
        Lists g client.timeout_s client.model
        × ((audio : String) × (g.read_bytes wav_path ≡ bytes audio)))
transcribe_uploads g client wav_path language =
    let asked : Client = record client { readiness_timeout_s = client.timeout_s } in
    let uploads = any-is_upload g client wav_path language in
    let (there, back) = is_ready-Lists g asked in
    (
      λ h. (there (ground arith), readable (g.read_bytes wav_path) (ground arith)),
      λ h. let ready = back h.0 in let read = h.1.1 in ground arith,
    )
  where
    readable : (r : Read) → is_read r ≡ true → (audio : String) × (r ≡ bytes audio)
    readable (bytes audio) h = (audio, refl)
    readable (os_error kind text) h = absurd (ground arith)
