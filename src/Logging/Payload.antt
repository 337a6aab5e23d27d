-- ===== src/Logging/Payload.antt =====
-- What a line of the log holds: `JsonFormatter` of src/local_transcription_service/logging.py.
use local_transcription_serv.Prelude.{
  ℕ, zero, suc, ◌≤◌, String, Bool, true, false, Option, none, some, List, [], ◌∷◌, ◌≡◌, refl, ◌∙◌,
  arith, map, take, length, text_eq, text_eq_iff, if◌then◌else◌, is_some,
}
use mathlib.Core.Option
use local_transcription_serv.Prelude.{All, ◌++◌, ◌&&◌, Option-cases, inl, inr}
use local_transcription_serv.Models.{Calendar, at_utc}
use local_transcription_serv.Logging.{
  LogRecord, reserved_log_record_keys, is_hidden, dict_set, merge_extras, first_fields,
  payload_with, payload,
}

module _ {V : Type 0} where
  abbrev pub lookup : String → List (String × V) → Option V
  lookup key [] = none
  lookup key ((k, v) ∷ d) = if text_eq k key then some v else lookup key d

  -- The keys of a dict differ.
  abbrev pub UniqueKeys : List (String × V) → Type 0
  UniqueKeys [] = Unit {0}
  UniqueKeys ((k, v) ∷ d) = (lookup k d ≡ none) × UniqueKeys d

  abbrev pub or_else : Option V → Option V → Option V
  or_else none other = other
  or_else (some v) other = some v

  abbrev pub keys : List (String × V) → List String
  keys = map (λ (entry : String × V). entry.0)

  lookup-dict_set :
      (j k : String) (v : V) (d : List (String × V))
      → lookup j (dict_set k v d) ≡ (if text_eq k j then some v else lookup j d)
  unfolding dict_set
  lookup-dict_set j k v [] = refl
  lookup-dict_set j k v ((i, w) ∷ d) =
      ground (arith, text_eq_iff k j, text_eq_iff i k, text_eq_iff i j, lookup-dict_set j k v d)

  lookup-merge_extras :
      (reserved : List String) (attributes d : List (String × V)) (key : String)
      → UniqueKeys attributes
      → lookup key (merge_extras reserved attributes d) ≡ (
          if is_hidden reserved key
          then lookup key d
          else or_else (lookup key attributes) (lookup key d))
  unfolding merge_extras
  lookup-merge_extras reserved [] d key u = ground arith
  lookup-merge_extras reserved ((k, v) ∷ attributes) d key u = ground (
    arith,
    lookup-merge_extras reserved attributes (if is_hidden reserved k then d else dict_set k v d)
        key,
    lookup-dict_set key k v d,
    text_eq_iff k key,
  )

  -- A key that is set keeps the first ones in their places.
  take-dict_set :
      (n : ℕ) (k : String) (v : V) (d : List (String × V))
      → n ≤ length d
      → (take n (keys (dict_set k v d)) ≡ take n (keys d)) × (n ≤ length (dict_set k v d))
  unfolding dict_set
  take-dict_set zero k v d h = (refl, omega arith)
  take-dict_set (suc n) k v [] h = absurd (omega (arith, h))
  take-dict_set (suc n) k v ((j, w) ∷ d) h = ground (arith, take-dict_set n k v d)

  take-merge_extras :
      (n : ℕ) (reserved : List String) (attributes d : List (String × V))
      → n ≤ length d
      → (take n (keys (merge_extras reserved attributes d)) ≡ take n (keys d))
        × (n ≤ length (merge_extras reserved attributes d))
  unfolding merge_extras
  take-merge_extras n reserved [] d h = (refl, h)
  take-merge_extras n reserved ((k, v) ∷ attributes) d h = ground (
    arith,
    take-dict_set n k v d,
    take-merge_extras n reserved attributes (if is_hidden reserved k then d else dict_set k v d),
  )

  -- Attributes that the formatter hides leave no trace.
  pub merge_extras-hidden :
      (reserved : List String) (standard extra d : List (String × V))
      → All (λ entry. is_hidden reserved entry.0 ≡ true) standard
      → merge_extras reserved (standard ++ extra) d ≡ merge_extras reserved extra d
  unfolding merge_extras
  merge_extras-hidden reserved [] extra d h = refl
  merge_extras-hidden reserved ((k, v) ∷ standard) extra d h =
      rw (h.0, merge_extras) (merge_extras-hidden reserved standard extra d h.1)

  module _ (text : String → V) where
    -- What a line shows under a key: the trace of an exception, an attribute that is not hidden, or
    -- one of the four fields.
    abbrev pub shown : List String → String → LogRecord V → String → Option V
    shown reserved ts r key =
        if text_eq "exc_info" key && is_some r.exc_info
        then Option.map text r.exc_info
        else (if is_hidden reserved key
            then lookup key (first_fields text ts r)
            else or_else (lookup key r.attributes) (lookup key (first_fields text ts r)))

    pub lookup-payload_with :
        (reserved : List String) (ts : String) (r : LogRecord V) (key : String)
        → UniqueKeys r.attributes
        → lookup key (payload_with text reserved ts r) ≡ shown reserved ts r key
    unfolding payload_with
    lookup-payload_with reserved ts r key u = elim (Option-cases r.exc_info) [
      | inl e ↦
          rw (e, payload_with)
            (lookup-merge_extras reserved r.attributes (first_fields text ts r) key u
              ∙ by_key (text_eq "exc_info" key) none)
      | inr (trace, e) ↦
          rw (e, payload_with)
            (lookup-dict_set key "exc_info" (text trace) _
              ∙ else_case (text_eq "exc_info" key) (some (text trace))
                  (lookup-merge_extras reserved r.attributes (first_fields text ts r) key u))
    ]
      where
        by_key : (b : Bool) {x : Option V} (y : Option V) → x ≡ (if b && false then y else x)
        by_key true y = refl
        by_key false y = refl

        else_case :
            (b : Bool) (x : Option V) {y z : Option V}
            → y ≡ z
            → (if b then x else y) ≡ (if b && true then x else z)
        else_case true x e = refl
        else_case false x e = e

    -- Under each key, a line shows the trace of the record's exception (under `exc_info`, if there is
    -- one); else the record's attribute, if the key is neither reserved nor begins with an
    -- underscore; else the formatter's own field, if it has one of that name. The keys `ts`, `level`,
    -- `logger` and `message` come first, in this order. (The attributes of a record have different
    -- names.)
    pub payload-shows :
        (c : Calendar) (r : LogRecord V)
        → UniqueKeys r.attributes
        → (take 4 (keys (payload text c r)) ≡ "ts" ∷ "level" ∷ "logger" ∷ "message" ∷ [])
          × ((key : String)
              → lookup key (payload text c r)
                ≡ shown reserved_log_record_keys (c.isoformat (at_utc r.created)) r key)
    unfolding payload payload_with
    payload-shows c r u = (
      first,
      λ key. lookup-payload_with reserved_log_record_keys (c.isoformat (at_utc r.created)) r key u,
    )
      where
        fields : List (String × V)
        fields = first_fields text (c.isoformat (at_utc r.created)) r

        first : take 4 (keys (payload text c r)) ≡ "ts" ∷ "level" ∷ "logger" ∷ "message" ∷ []
        first =
            let (same, long) =
              take-merge_extras 4 reserved_log_record_keys r.attributes fields (omega arith) in
            elim (Option-cases r.exc_info) [
              | inl e ↦ rw (e, payload_with) same
              | inr (trace, e) ↦
                  rw (e, payload_with) ((take-dict_set 4 "exc_info" (text trace) _ long).0 ∙ same)
            ]
