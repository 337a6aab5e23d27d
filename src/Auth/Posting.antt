-- ===== src/Auth/Posting.antt =====
-- `POST /jobs` as a whole: the token of src/local_transcription_service/auth.py, the body of
-- api/schemas.py, `submit_job` of api/jobs.py and `submit` of queue/store.py.
use local_transcription_serv.Prelude.{
  ℕ, String, true, Option, none, some, [], ◌∷◌, ◌++◌, ◌≡◌, inl, inr, refl, Option-cases, arith,
}
use local_transcription_serv.Models.{Calendar}
use local_transcription_serv.Store.Table.{Db, find_row}
use local_transcription_serv.Store.Submit.{new_job, inserted, submit}
use local_transcription_serv.Stt.{Json, null, boolean, integer, floating, string, array, object}
use local_transcription_serv.Api.{Reply, success, validation_error, SubmitJobResponse, submit_job}
use local_transcription_serv.Api.Schemas.{
  UrlParser, SubmitJobRequest, is_youtube, must_be_youtube, submit_job_request,
}
use local_transcription_serv.Auth.{CompareDigest, guarded}
use local_transcription_serv.Auth.Guard.{IsDocumented, is_ascii, guarded_runs}

module _ (c : Calendar) (p : UrlParser) (now : ℕ) (token : String) where
  -- The handler, for a body that the schema may refuse.
  unfoldable pub post_body : Json → Db → Db × Reply SubmitJobResponse
  post_body body db = elim (submit_job_request p body) [
    | none ↦ (db, validation_error)
    | some request ↦ submit_job c now token request.video_url.text db
  ]

  -- `POST /jobs`
  unfoldable pub post_jobs :
      CompareDigest → Option String → String → Json → Db → Db × Reply SubmitJobResponse
  post_jobs compare_digest header auth_token body =
      guarded compare_digest header auth_token (post_body body)

  -- What a request may do to the table, by its reply.
  abbrev pub Posted : Option String → String → Json → Db → Db × Reply SubmitJobResponse → Type 0
  Posted header auth_token body db (after, success reply) =
      (request : SubmitJobRequest) × (header ≡ some auth_token)
      × (submit_job_request p body ≡ some request)
      × (is_youtube p request.video_url ≡ true)
      × (find_row token db ≡ none)
      × (after ≡ db ++ (inserted c (new_job c now token request.video_url.text) ∷ []))
      × (reply.job_id ≡ token)
  Posted header auth_token body db (after, _) = after ≡ db

  submit_job_request-is_youtube :
      (body : Json) (request : SubmitJobRequest)
      → submit_job_request p body ≡ some request
      → is_youtube p request.video_url ≡ true
  unfolding submit_job_request must_be_youtube
  submit_job_request-is_youtube (object ms) request h = ground arith
  submit_job_request-is_youtube null request h = cc
  submit_job_request-is_youtube (boolean b) request h = cc
  submit_job_request-is_youtube (integer n) request h = cc
  submit_job_request-is_youtube (floating x) request h = cc
  submit_job_request-is_youtube (string s) request h = cc
  submit_job_request-is_youtube (array xs) request h = cc

  post_body-Posted :
      (auth_token : String) (body : Json) (db : Db)
      → Posted (some auth_token) auth_token body db (post_body body db)
  unfolding post_body submit_job submit
  post_body-Posted auth_token body db = elim (Option-cases (submit_job_request p body)) [
    | inl e ↦ rw (e, post_body) refl
    | inr (request, e) ↦ elim (Option-cases (find_row token db)) [
      | inl absent ↦
          rw (e, absent, post_body, submit_job)
            (request, refl, e, submit_job_request-is_youtube body request e, absent, refl, refl)
      | inr (row, present) ↦ rw (e, present, post_body, submit_job) refl
    ]
  ]

-- `POST /jobs` answers with success only if the header holds the configured token, the body passes
-- the schema with a host of YouTube and the new id names no job yet; then it has added one row for
-- that id and URL, queued and without an attempt, and the reply holds the id. Any other reply
-- leaves the table as it is.
pub post_jobs-Posted :
    (c : Calendar) (p : UrlParser) (compare_digest : CompareDigest)
    → IsDocumented compare_digest
    → (auth_token : String) → is_ascii auth_token ≡ true
    → (now : ℕ) (token : String) (header : Option String) (body : Json) (db : Db)
    → Posted c p now token header auth_token body db
        (post_jobs c p now token compare_digest header auth_token body db)
unfolding post_jobs
post_jobs-Posted c p compare_digest documented auth_token configured now token header body db =
    elim (guarded_runs compare_digest documented auth_token configured header
      (post_body c p now token body) db) [
        | inl (e, run) ↦ rw (run, e) (post_body-Posted c p now token auth_token body db)
        | inr (inl (apart, ascii, run)) ↦ rw run refl
        | inr (inr (apart, ascii, run)) ↦ rw run refl
      ]
