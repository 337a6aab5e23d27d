-- ===== src/Auth/Guard.antt =====
-- Who gets past `require_token` of src/local_transcription_service/auth.py.
use Prim.Native.Char.{code}
use Prim.Native.String.{String}
use local_transcription_serv.Prelude.{
  Bool, true, false, Option, none, some, ◌&&◌, ◌≡◌, ◌≢◌, ◌⊎◌, inl, inr, refl, ap, ltb, text_eq,
  text_eq_iff, text_eq_self, text_eq_ne, Bool-cases, arith,
}
use local_transcription_serv.Api.{Reply, http_exception, unhandled}
use local_transcription_serv.Auth.{
  CompareDigest, granted, unauthorized, type_error, require_token, guarded,
}

abbrev pub is_ascii : String → Bool
is_ascii String.[] = true
is_ascii (String.◌∷◌ c s) = ltb (code c) 128 && is_ascii s

-- What is documented of `compare_digest`: it compares two ASCII texts, and raises a TypeError for
-- any other.
pub record IsDocumented (compare_digest : CompareDigest) : Type 0 where
  pub ascii :
      (s t : String)
      → is_ascii s ≡ true
      → is_ascii t ≡ true
      → compare_digest s t ≡ some (text_eq s t)
  pub other : (s t : String) → (is_ascii s && is_ascii t) ≡ false → compare_digest s t ≡ none

abbrev pub is_ascii_header : Option String → Bool
is_ascii_header none = true
is_ascii_header (some s) = is_ascii s

module _ (compare_digest : CompareDigest) (documented : IsDocumented compare_digest)
    (auth_token : String) (configured : is_ascii auth_token ≡ true) where
  require_token_same : require_token compare_digest (some auth_token) auth_token ≡ granted
  unfolding require_token
  require_token_same = rw (
    require_token,
    documented.ascii auth_token auth_token configured configured,
    text_eq_self auth_token,
  )

  require_token_other :
      (header : Option String)
      → is_ascii_header header ≡ true
      → header ≢ some auth_token
      → require_token compare_digest header auth_token ≡ unauthorized
  unfolding require_token
  require_token_other none h apart = refl
  require_token_other (some s) h apart = rw (
    require_token,
    documented.ascii s auth_token h configured,
    text_eq_ne s auth_token (λ e. apart (ap some e)),
  )

  require_token_unreadable :
      (header : Option String)
      → is_ascii_header header ≡ false
      → require_token compare_digest header auth_token ≡ type_error
  unfolding require_token
  require_token_unreadable none h = cc
  require_token_unreadable (some s) h =
      rw (require_token, documented.other s auth_token (rw h refl))

-- Whether a header holds the token.
header-cases :
    (header : Option String) (auth_token : String)
    → (header ≡ some auth_token) ⊎ (header ≢ some auth_token)
header-cases none auth_token = inr (λ h. cc)
header-cases (some s) auth_token = elim (Bool-cases (text_eq s auth_token)) [
  | inl e ↦ inl (ap some ((text_eq_iff s auth_token).0 e))
  | inr e ↦ inr (λ h. ground (arith, text_eq_iff s auth_token))
]

-- With an ASCII token configured, the handler of a guarded endpoint runs exactly on the requests
-- whose header holds just this token. Any other request leaves the state as it is: it gets a 401 if
-- it has no header or an ASCII one, and a header that is not ASCII ends in an unhandled exception.
pub guarded_runs :
    {S A : Type 0} (compare_digest : CompareDigest)
    → IsDocumented compare_digest
    → (auth_token : String) → is_ascii auth_token ≡ true
    → (header : Option String) (handler : S → S × Reply A) (state : S)
    → let answer = guarded compare_digest header auth_token handler state in
      ((header ≡ some auth_token) × (answer ≡ handler state))
      ⊎ ((header ≢ some auth_token)
          × (is_ascii_header header ≡ true)
          × (answer ≡ (state, http_exception 401 "UNAUTHORIZED" "Invalid or missing X-Auth-Token")))
      ⊎ ((header ≢ some auth_token)
          × (is_ascii_header header ≡ false)
          × (answer ≡ (state, unhandled)))
unfolding guarded
guarded_runs compare_digest documented auth_token configured header handler state =
    elim (header-cases header auth_token) [
      | inl e ↦
          inl
            (e, rw (e, guarded, require_token_same compare_digest documented auth_token configured))
      | inr apart ↦ elim (Bool-cases (is_ascii_header header)) [
        | inl h ↦ inr (
            inl (
              apart,
              h,
              rw (
                guarded,
                require_token_other compare_digest documented auth_token configured header h apart,
              ),
            ))
        | inr h ↦ inr (
            inr (
              apart,
              h,
              rw (
                guarded,
                require_token_unreadable compare_digest documented auth_token configured header h,
              ),
            ))
      ]
    ]
