-- ===== src/Stt/Models.antt =====
-- Which bodies of a /models response list which models: `_list_models` of
-- src/local_transcription_service/stt/litellm_whisper.py.
use local_transcription_serv.Prelude.{
  String, Option, none, some, List, [], ◌∷◌, ◌≡◌, refl, subst, arith, ◌↔◌,
}
use local_transcription_serv.Pipeline.{Result, ok, raises}
use local_transcription_serv.Stt.{
  Json, null, boolean, integer, floating, string, array, object, Elements, no_elements, element,
  Members, get, model_ids, models_of,
}

-- The entries are dicts whose "id" members are these strings, in this order.
abbrev pub HasIds : Elements → List String → Type 0
HasIds no_elements [] = Unit {0}
HasIds (element (object ms) entries) (mid ∷ ids) = (get "id" ms ≡ string mid) × HasIds entries ids
HasIds _ _ = ⊥

-- The body is a dict whose "data" member is such a list.
abbrev pub IsListing : Option Json → List String → Type 0
IsListing (some (object ms)) ids =
    (entries : Elements) × (get "data" ms ≡ array entries) × HasIds entries ids
IsListing _ ids = ⊥

model_ids-HasIds :
    (entries : Elements) (ids : List String) → model_ids entries ≡ ok ids → HasIds entries ids
unfolding model_ids
model_ids-HasIds no_elements [] h = tt
model_ids-HasIds no_elements (i ∷ ids) h = ground arith
model_ids-HasIds (element (object ms) entries) ids h =
    by_id (λ rest. model_ids-HasIds entries rest) (get "id" ms) refl
  where
    by_id :
        ((rest : List String) → model_ids entries ≡ ok rest → HasIds entries rest)
        → (v : Json) → get "id" ms ≡ v
        → HasIds (element (object ms) entries) ids
    by_id again (string mid) e = by_rest (model_ids entries) refl
      where
        by_rest :
            (r : Result (List String))
            → model_ids entries ≡ r
            → HasIds (element (object ms) entries) ids
        by_rest (ok rest) f =
            let all : mid ∷ rest ≡ ids = ground arith in
            subst (HasIds (element (object ms) entries)) all (e, again rest f)
        by_rest (raises exc) f = absurd (ground arith)
    by_id again null e = absurd (ground arith)
    by_id again (boolean b) e = absurd (ground arith)
    by_id again (integer n) e = absurd (ground arith)
    by_id again (floating n) e = absurd (ground arith)
    by_id again (array n) e = absurd (ground arith)
    by_id again (object n) e = absurd (ground arith)
model_ids-HasIds (element null entries) ids h = ground arith
model_ids-HasIds (element (boolean b) entries) ids h = ground arith
model_ids-HasIds (element (integer n) entries) ids h = ground arith
model_ids-HasIds (element (floating x) entries) ids h = ground arith
model_ids-HasIds (element (string s) entries) ids h = ground arith
model_ids-HasIds (element (array xs) entries) ids h = ground arith

HasIds-model_ids :
    (entries : Elements) (ids : List String) → HasIds entries ids → model_ids entries ≡ ok ids
unfolding model_ids
HasIds-model_ids no_elements [] h = refl
HasIds-model_ids (element (object ms) entries) (mid ∷ ids) h =
    rw (h.0, model_ids, HasIds-model_ids entries ids h.1) refl
HasIds-model_ids no_elements (mid ∷ ids) h = absurd h
HasIds-model_ids (element (object ms) entries) [] h = absurd h
HasIds-model_ids (element null entries) ids h = absurd h
HasIds-model_ids (element (boolean b) entries) ids h = absurd h
HasIds-model_ids (element (integer n) entries) ids h = absurd h
HasIds-model_ids (element (floating x) entries) ids h = absurd h
HasIds-model_ids (element (string s) entries) ids h = absurd h
HasIds-model_ids (element (array xs) entries) ids h = absurd h

-- `_list_models` accepts a body with a list of models exactly if the body is a dict whose "data" is
-- a list of dicts, each with a string "id", and the list consists of these strings in their order.
pub models_of_iff :
    (body : Option Json) (ids : List String) → (models_of body ≡ ok ids) ↔ IsListing body ids
unfolding models_of
models_of_iff body ids = (there body, back body)
  where
    data_of :
        (ms : Members)
        → (v : Json) → get "data" ms ≡ v
        → models_of (some (object ms)) ≡ ok ids
        → IsListing (some (object ms)) ids
    data_of ms (array entries) e h = (entries, e, model_ids-HasIds entries ids (ground arith))
    data_of ms null e h = absurd (ground arith)
    data_of ms (boolean b) e h = absurd (ground arith)
    data_of ms (integer n) e h = absurd (ground arith)
    data_of ms (floating n) e h = absurd (ground arith)
    data_of ms (string n) e h = absurd (ground arith)
    data_of ms (object n) e h = absurd (ground arith)

    there : (o : Option Json) → models_of o ≡ ok ids → IsListing o ids
    there none h = ground arith
    there (some (object ms)) h = data_of ms (get "data" ms) refl h
    there (some null) h = ground arith
    there (some (boolean b)) h = ground arith
    there (some (integer n)) h = ground arith
    there (some (floating n)) h = ground arith
    there (some (string n)) h = ground arith
    there (some (array n)) h = ground arith

    back : (o : Option Json) → IsListing o ids → models_of o ≡ ok ids
    back (some (object ms)) (entries, e, h) = rw (e, models_of) (HasIds-model_ids entries ids h)
    back none h = absurd h
    back (some null) h = absurd h
    back (some (boolean b)) h = absurd h
    back (some (integer n)) h = absurd h
    back (some (floating x)) h = absurd h
    back (some (string s)) h = absurd h
    back (some (array xs)) h = absurd h
