-- ===== src/Auth.antt =====
-- The token of the HTTP API: `require_token` of src/local_transcription_service/auth.py, which is a
-- dependency of the router in api/jobs.py. `secrets.compare_digest` is an argument.
pub mod Guard
pub mod Posting
use local_transcription_serv.Prelude.{String, Bool, true, false, Option, none, some}
use local_transcription_serv.Api.{Reply, http_exception, unhandled}

-- `secrets.compare_digest` on two str; `none` is its TypeError.
abbrev pub CompareDigest : Type 0
CompareDigest = String → String → Option Bool

-- How `require_token` ends.
pub data Access : Type 0 where
  granted : Access
  unauthorized : Access
  type_error : Access

module _ (compare_digest : CompareDigest) where
  -- `require_token`, with the header's value and the configured token.
  unfoldable pub require_token : Option String → String → Access
  require_token none auth_token = unauthorized
  require_token (some presented) auth_token = elim (compare_digest presented auth_token) [
    | none ↦ type_error
    | some equal ↦ elim equal [ true ↦ granted | false ↦ unauthorized ]
  ]

  -- An endpoint of a router with this dependency: its handler runs only if access is granted.
  unfoldable pub guarded :
      {S A : Type 0} → Option String → String → (S → S × Reply A) → S → S × Reply A
  guarded header auth_token handler state = elim (require_token header auth_token) [
    | granted ↦ handler state
    | unauthorized ↦ (state, http_exception 401 "UNAUTHORIZED" "Invalid or missing X-Auth-Token")
    | type_error ↦ (state, unhandled)
  ]
