-- ===== src/Logging.antt =====
-- Structured logging: src/local_transcription_service/logging.py. The values of a record's
-- attributes are any objects, so their type is a parameter, with the texts among them; so is
-- `json.dumps`. A dict is the list of its entries in the order of their insertion.
pub mod Payload
pub mod Handlers
use local_transcription_serv.Prelude.{
  ℕ, String, Bool, true, false, not, ◌&&◌, ◌||◌, Option, none, some, List, [], ◌∷◌, ◌++◌, any, map,
  text_eq, starts_with, if◌then◌else◌, ◌==◌,
}
use local_transcription_serv.Models.{Calendar, at_utc}

-- What a formatter reads of a `logging.LogRecord`: the time in microseconds, `getMessage()`, the
-- text of `formatException`, and `__dict__`.
pub record LogRecord (V : Type 0) : Type 0 where
  pub created : ℕ
  pub levelname : String
  pub name : String
  pub message : String
  pub exc_info : Option String
  pub attributes : List (String × V)

-- `_RESERVED_LOG_RECORD_KEYS`
abbrev pub reserved_log_record_keys : List String
reserved_log_record_keys =
    "args" ∷ "asctime" ∷ "created" ∷ "exc_info" ∷ "exc_text" ∷ "filename" ∷ "funcName" ∷ "levelname"
    ∷ "levelno" ∷ "lineno" ∷ "message" ∷ "module" ∷ "msecs" ∷ "msg" ∷ "name" ∷ "pathname"
    ∷ "process" ∷ "processName" ∷ "relativeCreated" ∷ "stack_info" ∷ "thread" ∷ "threadName"
    ∷ "taskName" ∷ []

-- `key in reserved or key.startswith("_")`
unfoldable pub is_hidden : List String → String → Bool
is_hidden reserved key = any (λ k. text_eq k key) reserved || starts_with key "_"

module _ {V : Type 0} where
  -- `d[key] = value`: a key that is there keeps its place.
  unfoldable pub dict_set : String → V → List (String × V) → List (String × V)
  dict_set key value [] = (key, value) ∷ []
  dict_set key value ((k, v) ∷ d) =
      let rest = dict_set key value d in if text_eq k key then (k, value) ∷ d else (k, v) ∷ rest

  -- The loop over `record.__dict__`, whose two branches do the same.
  unfoldable pub merge_extras :
      List String → List (String × V) → List (String × V) → List (String × V)
  merge_extras reserved [] payload = payload
  merge_extras reserved ((key, value) ∷ attributes) payload =
      merge_extras reserved attributes
        (if is_hidden reserved key then payload else dict_set key value payload)

  module _ (text : String → V) where
    abbrev pub first_fields : String → LogRecord V → List (String × V)
    first_fields ts r =
        ("ts", text ts)
        ∷ ("level", text r.levelname)
        ∷ ("logger", text r.name)
        ∷ ("message", text r.message)
        ∷ []

    -- The dict that a formatter builds, from its reserved keys and its time stamp.
    unfoldable pub payload_with : List String → String → LogRecord V → List (String × V)
    payload_with reserved ts r =
        let merged = merge_extras reserved r.attributes (first_fields ts r) in
        elim r.exc_info [ none ↦ merged | some trace ↦ dict_set "exc_info" (text trace) merged ]

    -- `JsonFormatter.format` up to `json.dumps`
    unfoldable pub payload : Calendar → LogRecord V → List (String × V)
    payload c r = payload_with reserved_log_record_keys (c.isoformat (at_utc r.created)) r

    -- `JsonFormatter.format`
    unfoldable pub format : (List (String × V) → String) → Calendar → LogRecord V → String
    format dumps c r = dumps (payload c r)

-- The root logger: its handlers as objects with an identity, those that carry the mark
-- `_lts_json_handler`, and the level.
pub record Root : Type 0 where
  pub handlers : List ℕ
  pub marked : ℕ → Bool
  pub level : String

-- `removeHandler` and `addHandler` on the list of handlers
unfoldable pub remove_handler : ℕ → List ℕ → List ℕ
remove_handler h [] = []
remove_handler h (k ∷ handlers) =
    let rest = remove_handler h handlers in if k == h then handlers else k ∷ rest

unfoldable pub add_handler : ℕ → List ℕ → List ℕ
add_handler h handlers = if any (λ k. k == h) handlers then handlers else handlers ++ (h ∷ [])

-- The loop over a copy of the handlers.
unfoldable pub remove_marked : (ℕ → Bool) → List ℕ → List ℕ → List ℕ
remove_marked marked [] handlers = handlers
remove_marked marked (h ∷ copy) handlers =
    remove_marked marked copy (if marked h then remove_handler h handlers else handlers)

-- `configure_logging`, with the new handler and the name of a level that `logging` knows
unfoldable pub configure_logging : String → ℕ → Root → Root
configure_logging level handler root = record {
  handlers = add_handler handler (remove_marked root.marked root.handlers root.handlers);
  marked = λ h. if h == handler then true else root.marked h;
  level = level;
}
