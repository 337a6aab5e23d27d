-- ===== src/Stt/Classified.antt =====
-- Which failures the client reports, and what it sends: `transcribe` and `_list_models` of
-- src/local_transcription_service/stt/litellm_whisper.py.
use local_transcription_serv.Prelude.{
  ℕ, String, Bool, true, false, Option, none, some, List, ◌≡◌, refl, ◌∙◌, ap, sym, subst, leb, any,
  text_eq, Bool-cases, inl, inr, ◌⊎◌,
}
use local_transcription_serv.Pipeline.{pipeline_error, other_error, Result, ok, raises, ◌>>=◌}
use local_transcription_serv.Stt.{
  Json, null, boolean, integer, floating, string, array, object, Elements, no_elements, element,
  get, model_ids, models_of, text_of, Response, Reply, answer, request_error, fault, Read, bytes,
  os_error, Request, get_models, Gateway, Client, gateway_unavailable, raise_for_status, call,
  list_models, upload, transcribe,
}

-- A `PipelineError` has one of three codes, and asks for a retry exactly if it is the gateway's.
-- Another exception is allowed only in a lax result.
abbrev pub Classified : {A : Type 0} → Bool → Result A → Type 0
Classified lax (ok a) = Unit {0}
Classified lax (raises (pipeline_error message code retryable)) =
    ((code ≡ "STT_GATEWAY_UNAVAILABLE") × (retryable ≡ true))
    ⊎ ((code ≡ "STT_BAD_REQUEST") × (retryable ≡ false))
    ⊎ ((code ≡ "MODEL_NOT_PULLED") × (retryable ≡ false))
Classified lax (raises (other_error kind text)) = lax ≡ true

bind-Classified :
    {A B : Type 0} (lax : Bool) (r : Result A) (f : A → Result B)
    → Classified lax r
    → ((a : A) → Classified lax (f a))
    → Classified lax (r >>= f)
bind-Classified lax (ok a) f h k = k a
bind-Classified lax (raises (pipeline_error m code b)) f h k = h
bind-Classified lax (raises (other_error kind text)) f h k = h

raise_for_status-Classified :
    (lax : Bool) (decimal : ℕ → String) (r : Response) (op : String)
    → Classified lax (raise_for_status decimal r op)
unfolding raise_for_status
raise_for_status-Classified lax decimal r op = elim (Bool-cases (leb 500 r.status_code)) [
  | inl a ↦ rw a (inl (refl, refl))
  | inr a ↦ rw a (elim (Bool-cases (leb 400 r.status_code)) [
    | inl b ↦ rw b (inr (inl (refl, refl)))
    | inr b ↦ rw b tt
  ])
]

model_ids-Classified : (lax : Bool) (entries : Elements) → Classified lax (model_ids entries)
unfolding model_ids
model_ids-Classified lax no_elements = tt
model_ids-Classified lax (element (object ms) entries) =
    by_id (model_ids-Classified lax entries) (get "id" ms) refl
  where
    by_id :
        Classified lax (model_ids entries)
        → (v : Json) → get "id" ms ≡ v
        → Classified lax (model_ids (element (object ms) entries))
    by_id again (string mid) e =
        rw (e, model_ids) (bind-Classified lax (model_ids entries) _ again (λ rest. tt))
    by_id again null e = rw (e, model_ids) (inr (inl (refl, refl)))
    by_id again (boolean b) e = rw (e, model_ids) (inr (inl (refl, refl)))
    by_id again (integer n) e = rw (e, model_ids) (inr (inl (refl, refl)))
    by_id again (floating x) e = rw (e, model_ids) (inr (inl (refl, refl)))
    by_id again (array xs) e = rw (e, model_ids) (inr (inl (refl, refl)))
    by_id again (object xs) e = rw (e, model_ids) (inr (inl (refl, refl)))
model_ids-Classified lax (element null entries) = inr (inl (refl, refl))
model_ids-Classified lax (element (boolean b) entries) = inr (inl (refl, refl))
model_ids-Classified lax (element (integer n) entries) = inr (inl (refl, refl))
model_ids-Classified lax (element (floating x) entries) = inr (inl (refl, refl))
model_ids-Classified lax (element (string s) entries) = inr (inl (refl, refl))
model_ids-Classified lax (element (array xs) entries) = inr (inl (refl, refl))

models_of-Classified : (lax : Bool) (body : Option Json) → Classified lax (models_of body)
unfolding models_of
models_of-Classified lax none = inr (inl (refl, refl))
models_of-Classified lax (some (object ms)) = by_data (get "data" ms) refl
  where
    by_data : (v : Json) → get "data" ms ≡ v → Classified lax (models_of (some (object ms)))
    by_data (array entries) e = rw (e, models_of) (model_ids-Classified lax entries)
    by_data null e = rw (e, models_of) (inr (inl (refl, refl)))
    by_data (boolean b) e = rw (e, models_of) (inr (inl (refl, refl)))
    by_data (integer n) e = rw (e, models_of) (inr (inl (refl, refl)))
    by_data (floating x) e = rw (e, models_of) (inr (inl (refl, refl)))
    by_data (string t) e = rw (e, models_of) (inr (inl (refl, refl)))
    by_data (object xs) e = rw (e, models_of) (inr (inl (refl, refl)))
models_of-Classified lax (some null) = inr (inl (refl, refl))
models_of-Classified lax (some (boolean b)) = inr (inl (refl, refl))
models_of-Classified lax (some (integer n)) = inr (inl (refl, refl))
models_of-Classified lax (some (floating x)) = inr (inl (refl, refl))
models_of-Classified lax (some (string t)) = inr (inl (refl, refl))
models_of-Classified lax (some (array xs)) = inr (inl (refl, refl))

text_of-Classified : (body : Option Json) → Classified true (text_of body)
unfolding text_of
text_of-Classified none = inr (inl (refl, refl))
text_of-Classified (some (object ms)) = by_text (get "text" ms) refl
  where
    by_text : (v : Json) → get "text" ms ≡ v → Classified true (text_of (some (object ms)))
    by_text (string t) e = rw (e, text_of) tt
    by_text null e = rw (e, text_of) (inr (inl (refl, refl)))
    by_text (boolean b) e = rw (e, text_of) (inr (inl (refl, refl)))
    by_text (integer n) e = rw (e, text_of) (inr (inl (refl, refl)))
    by_text (floating x) e = rw (e, text_of) (inr (inl (refl, refl)))
    by_text (array xs) e = rw (e, text_of) (inr (inl (refl, refl)))
    by_text (object xs) e = rw (e, text_of) (inr (inl (refl, refl)))
text_of-Classified (some null) = refl
text_of-Classified (some (boolean b)) = refl
text_of-Classified (some (integer n)) = refl
text_of-Classified (some (floating x)) = refl
text_of-Classified (some (string t)) = refl
text_of-Classified (some (array xs)) = refl

abbrev pub is_fault : Reply → Bool
is_fault (fault kind text) = true
is_fault _ = false

module _ (g : Gateway) (lax : Bool)
    (faults : (r : Request) → is_fault (g.send r) ≡ true → lax ≡ true) where
  call-Classified : (request : Request) (op : String) → Classified lax (call g request op)
  unfolding call gateway_unavailable
  call-Classified request op = by_reply (g.send request) refl
    where
      by_reply : (r : Reply) → g.send request ≡ r → Classified lax (call g request op)
      by_reply (answer r) e =
          rw (e, call)
            (bind-Classified lax (raise_for_status g.decimal r op) _
              (raise_for_status-Classified lax g.decimal r op) (λ passed. tt))
      by_reply (request_error text) e = rw (e, call) (inl (refl, refl))
      by_reply (fault kind text) e = rw (e, call) (faults request (ap is_fault e))

  list_models-Classified : (timeout_s : ℕ) → Classified lax (list_models g timeout_s)
  unfolding list_models
  list_models-Classified timeout_s =
      bind-Classified lax (call g (get_models timeout_s) "GET /models") _
        (call-Classified (get_models timeout_s) "GET /models")
        (λ r. models_of-Classified lax r.json)

-- If `httpx` raises no other exceptions than its RequestError, `_list_models` raises none but a
-- `PipelineError`, whatever the gateway's body holds: the gateway's code with a retry, or another
-- code without.
pub list_models_raises :
    (g : Gateway) (timeout_s : ℕ)
    → ((r : Request) → is_fault (g.send r) ≡ false)
    → Classified false (list_models g timeout_s)
list_models_raises g timeout_s clean =
    list_models-Classified g false (λ r e. sym (clean r) ∙ e) timeout_s

-- Every `PipelineError` that leaves `transcribe` has one of three codes, and it asks for a retry
-- exactly if the code is STT_GATEWAY_UNAVAILABLE.
pub transcribe_raises :
    (g : Gateway) (client : Client) (wav_path : String) (language : Option String)
    → Classified true (transcribe g client wav_path language).1
unfolding transcribe upload
transcribe_raises g client wav_path language = by_models (list_models g client.timeout_s) refl
  where
    by_read :
        (r : Read)
        → g.read_bytes wav_path ≡ r
        → Classified true (upload g client wav_path language).1
    by_read (os_error kind text) e = rw (e, upload) refl
    by_read (bytes audio) e =
        rw (e, upload)
          (bind-Classified true (call g _ "POST /audio/transcriptions")
            (λ response. text_of response.json)
            (call-Classified g true (λ r f. refl) _ "POST /audio/transcriptions")
            (λ response. text_of-Classified response.json))

    by_models :
        (r : Result (List String))
        → list_models g client.timeout_s ≡ r
        → Classified true (transcribe g client wav_path language).1
    by_models (raises exc) e =
        rw (e, transcribe)
          (subst (Classified true) e (list_models-Classified g true (λ r f. refl) client.timeout_s))
    by_models (ok models) e = elim (Bool-cases (any (text_eq client.model) models)) [
      | inl b ↦ rw (e, transcribe, b) (by_read (g.read_bytes wav_path) refl)
      | inr b ↦ rw (e, transcribe, b) (inr (inr (refl, refl)))
    ]
