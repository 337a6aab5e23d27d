-- ===== src/Api/Schemas.antt =====
-- The body of `POST /jobs`: `SubmitJobRequest` of src/local_transcription_service/api/schemas.py.
-- pydantic's `HttpUrl` and `str.lower` are the fields of `UrlParser`.
use local_transcription_serv.Prelude.{
  String, Bool, true, Option, none, some, List, [], ◌∷◌, ◌&&◌, any, text_eq, ◌>>=◌, if◌then◌else◌,
}
use local_transcription_serv.Stt.{Json, object, Members, no_members, member}

-- A parsed `HttpUrl`, with its text.
pub record HttpUrl : Type 0 where
  pub text : String
  pub host : Option String

pub record UrlParser : Type 0 where
  -- `none` is a ValidationError
  pub http_url : Json → Option HttpUrl
  pub lower : String → String

pub record SubmitJobRequest : Type 0 where
  pub video_url : HttpUrl

unfoldable pub youtube_hosts : List String
youtube_hosts = "youtube.com" ∷ "www.youtube.com" ∷ "m.youtube.com" ∷ "youtu.be" ∷ []

-- `value.host or ""`
abbrev pub host_or_empty : Option String → String
host_or_empty none = ""
host_or_empty (some host) = host

unfoldable pub is_youtube : UrlParser → HttpUrl → Bool
is_youtube p url = any (text_eq (p.lower (host_or_empty url.host))) youtube_hosts

-- `_must_be_youtube`; `none` is its ValueError.
unfoldable pub must_be_youtube : UrlParser → HttpUrl → Option HttpUrl
must_be_youtube p url = if is_youtube p url then some url else none

-- A required member of a dict.
abbrev pub required : String → Members → Option Json
required key no_members = none
required key (member k value ms) = if text_eq k key then some value else required key ms

-- `extra="forbid"`
abbrev pub has_only : String → Members → Bool
has_only key no_members = true
has_only key (member k value ms) = text_eq k key && has_only key ms

-- `SubmitJobRequest` from a body; `none` is a ValidationError.
unfoldable pub submit_job_request : UrlParser → Json → Option SubmitJobRequest
submit_job_request p (object ms) =
    if has_only "video_url" ms
    then (do
      value ← required "video_url" ms
      url ← p.http_url value
      checked ← must_be_youtube p url
      some (record { video_url = checked }))
    else none
submit_job_request p _ = none
