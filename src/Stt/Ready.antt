-- ===== src/Stt/Ready.antt =====
-- When the gateway is ready: `is_ready` of src/local_transcription_service/stt/litellm_whisper.py
-- against the reply that the gateway gives.
use local_transcription_serv.Prelude.{
  ℕ, ◌<◌, String, true, List, [], ◌∷◌, ◌++◌, ◌≡◌, refl, ◌↔◌, ap, sym, ◌∙◌, any, arith, leb, text_eq,
  text_eq_iff, text_eq_self, Bool-cases, inl, inr,
}
use local_transcription_serv.Pipeline.{Result, ok, raises}
use local_transcription_serv.Stt.{
  Response, Reply, answer, request_error, fault, get_models, Gateway, Client, call,
  raise_for_status, list_models, models_of, is_ready,
}
use local_transcription_serv.Stt.Models.{IsListing, models_of_iff}

-- A text stands in a list.
abbrev pub Stands : String → List String → Type 0
Stands x xs = (before : List String) × (after : List String) × (xs ≡ before ++ (x ∷ after))

-- The gateway answers the request for its models with no error status and a listing in which the
-- model stands.
pub record Lists (g : Gateway) (timeout_s : ℕ) (model : String) : Type 0 where
  pub response : Response
  pub ids : List String
  pub answered : g.send (get_models timeout_s) ≡ answer response
  pub accepted : response.status_code < 400
  pub listing : IsListing response.json ids
  pub there : Stands model ids

any-Stands : (x : String) (xs : List String) → any (text_eq x) xs ≡ true → Stands x xs
any-Stands x [] h = absurd (ground arith)
any-Stands x (y ∷ xs) h = elim (Bool-cases (text_eq x y)) [
  | inl e ↦ ([], xs, ap (λ z. z ∷ xs) (sym ((text_eq_iff x y).0 e)))
  | inr e ↦
      (let (before, after, f) = any-Stands x xs (ground arith) in
        (y ∷ before, after, ap (λ zs. y ∷ zs) f))
]

Stands-any :
    (x : String) (before after : List String) → any (text_eq x) (before ++ (x ∷ after)) ≡ true
Stands-any x [] after = rw (text_eq_self x) refl
Stands-any x (y ∷ before) after = ground (arith, Stands-any x before after)

module _ (g : Gateway) (client : Client) where
  abbrev Listed : Type 0
  Listed = Lists g client.readiness_timeout_s client.model

  listed_of :
      (response : Response)
      → g.send (get_models client.readiness_timeout_s) ≡ answer response
      → response.status_code < 400
      → (models : Result (List String)) → models_of response.json ≡ models
      → is_ready g client ≡ true
      → Listed
  unfolding is_ready list_models call raise_for_status
  listed_of response sent status (raises exc) e h = absurd (ground arith)
  listed_of response sent status (ok ids) e h = record {
    response = response;
    ids = ids;
    answered = sent;
    accepted = status;
    listing = (models_of_iff response.json ids).0 e;
    there = any-Stands client.model ids (ground arith);
  }

  is_ready-Lists_there :
      (reply : Reply)
      → g.send (get_models client.readiness_timeout_s) ≡ reply
      → is_ready g client ≡ true
      → Listed
  unfolding is_ready list_models call raise_for_status
  is_ready-Lists_there (request_error text) sent h = absurd (ground arith)
  is_ready-Lists_there (fault kind text) sent h = absurd (ground arith)
  is_ready-Lists_there (answer response) sent h = elim (Bool-cases (leb 400 response.status_code)) [
    | inl e ↦ absurd (ground arith)
    | inr e ↦ listed_of response sent (ground arith) (models_of response.json) refl h
  ]

  -- `is_ready` holds exactly if the gateway lists the model.
  pub is_ready-Lists : (is_ready g client ≡ true) ↔ Lists g client.readiness_timeout_s client.model
  unfolding is_ready list_models call raise_for_status
  is_ready-Lists = (
    is_ready-Lists_there (g.send (get_models client.readiness_timeout_s)) refl,
    λ l.
        let parsed = (models_of_iff l.response.json l.ids).1 l.listing in
        let (before, after, split) = l.there in
        let answered = l.answered in
        let accepted = l.accepted in
        let found = ap (any (text_eq client.model)) split ∙ Stands-any client.model before after in
        ground arith,
  )
