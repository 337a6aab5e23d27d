-- ===== src/Stt.antt =====
-- The speech-to-text client: src/local_transcription_service/stt/litellm_whisper.py.
-- `httpx` and the file system are the fields of `Gateway`. The constructor's defaults from the
-- environment and logging are not modelled; a method also returns the requests that it sent.
pub mod Classified
pub mod Models
pub mod Uploads
pub mod Ready
pub mod Engines
pub mod Connection
use local_transcription_serv.Prelude.{
  ℕ, String, ◌<>◌, Bool, true, false, Option, none, some, List, [], ◌∷◌, leb, text_eq, any,
  if◌then◌else◌,
}
use local_transcription_serv.Pipeline.{
  Exception, pipeline_error, other_error, Result, ok, raises, ◌>>=◌,
}

-- A value that `json` parses: a dict has one member per key.
mutual
  pub data Json : Type 0 where
    null : Json
    boolean : Bool → Json
    integer : String → Json
    floating : String → Json
    string : String → Json
    array : Elements → Json
    object : Members → Json

  pub data Elements : Type 0 where
    no_elements : Elements
    element : Json → Elements → Elements

  pub data Members : Type 0 where
    no_members : Members
    member : String → Json → Members → Members

-- `type(x).__name__`
unfoldable pub type_name : Json → String
type_name null = "NoneType"
type_name (boolean b) = "bool"
type_name (integer n) = "int"
type_name (floating x) = "float"
type_name (string s) = "str"
type_name (array xs) = "list"
type_name (object ms) = "dict"

-- `dict.get(key)`; the default None is `null`.
unfoldable pub get : String → Members → Json
get key no_members = null
get key (member k value ms) = if text_eq k key then value else get key ms

-- `json` is none for a body that is no JSON.
pub record Response : Type 0 where
  pub status_code : ℕ
  pub json : Option Json

-- What an `httpx` call comes to: a response, an `httpx.RequestError` with its text, or another
-- exception.
pub data Reply : Type 0 where
  answer : Response → Reply
  request_error : String → Reply
  fault : (type_name text : String) → Reply

-- `wav_path.read_bytes()`
pub data Read : Type 0 where
  bytes : String → Read
  os_error : (type_name text : String) → Read

-- The upload's form: model, language, file name, bytes.
pub data Request : Type 0 where
  get_models : (timeout_s : ℕ) → Request
  post_audio :
      (timeout_s : ℕ) (model : String) (language : Option String) (name audio : String) → Request

pub record Gateway : Type 0 where
  pub send : Request → Reply
  -- whether the request for the models comes to an end within five seconds
  pub timely : Bool
  pub read_bytes : String → Read
  -- `str` of an int, `repr` of a str and the last part of a path
  pub decimal : ℕ → String
  pub repr : String → String
  pub file_name : String → String

-- `LiteLLMWhisperSTT`
pub record Client : Type 0 where
  pub model : String
  pub timeout_s : ℕ
  pub readiness_timeout_s : ℕ

abbrev bad_request : {A : Type 0} → String → Result A
bad_request message = raises (pipeline_error message "STT_BAD_REQUEST" false)

unfoldable pub gateway_unavailable : String → String → Exception
gateway_unavailable op text =
    pipeline_error ("STT gateway unreachable on " <> op <> ": " <> text) "STT_GATEWAY_UNAVAILABLE"
      true

-- The loop over `data`, for the entries that are left.
unfoldable pub model_ids : Elements → Result (List String)
model_ids no_elements = ok []
model_ids (element (object ms) entries) = elim (get "id" ms) [
  | string mid ↦ (do rest ← model_ids entries; ok (mid ∷ rest))
  | _ ↦ bad_request "STT gateway /models response entry is missing a string 'id'"
]
model_ids (element _ entries) =
    bad_request "STT gateway /models response contains a non-object entry"

-- `_raise_for_status`
unfoldable pub raise_for_status : (ℕ → String) → Response → String → Result (Unit {0})
raise_for_status decimal response op =
    if leb 500 response.status_code
    then raises (
        pipeline_error ("STT gateway error on " <> op <> ": HTTP " <> decimal response.status_code)
          "STT_GATEWAY_UNAVAILABLE" true)
    else (if leb 400 response.status_code
        then bad_request
            ("STT gateway rejected " <> op <> ": HTTP " <> decimal response.status_code)
        else ok tt)

-- The body of a /models response, validated.
unfoldable pub models_of : Option Json → Result (List String)
models_of none = bad_request "STT gateway returned a non-JSON /models response"
models_of (some (object ms)) = elim (get "data" ms) [
  | array entries ↦ model_ids entries
  | _ ↦ bad_request "STT gateway /models response.data is not a list"
]
models_of (some _) = bad_request "STT gateway /models response is not a JSON object"

-- The body of a transcription. Unlike `_list_models`, the code does not test for a dict, so `.get`
-- on any other value is an AttributeError.
unfoldable pub text_of : Option Json → Result String
text_of none = bad_request "STT gateway returned a non-JSON transcription response"
text_of (some (object ms)) = elim (get "text" ms) [
  | string text ↦ ok text
  | _ ↦ bad_request "STT gateway response is missing the 'text' field"
]
text_of (some payload) =
    raises
      (other_error "AttributeError" ("'" <> type_name payload <> "' object has no attribute 'get'"))

module _ (g : Gateway) where
  -- One call, up to `_raise_for_status`.
  unfoldable pub call : Request → String → Result Response
  call request op = elim (g.send request) [
    | answer response ↦ (do passed ← raise_for_status g.decimal response op; ok response)
    | request_error text ↦ raises (gateway_unavailable op text)
    | fault kind text ↦ raises (other_error kind text)
  ]

  -- `_list_models`
  unfoldable pub list_models : ℕ → Result (List String)
  list_models timeout_s = do
    response ← call (get_models timeout_s) "GET /models"
    models_of response.json

  -- `transcribe` after the preflight: the requests, and the text.
  unfoldable pub upload : Client → String → Option String → List Request × Result String
  upload client wav_path language = elim (g.read_bytes wav_path) [
    | os_error kind text ↦ ([], raises (other_error kind text))
    | bytes audio ↦
        (let request =
            post_audio client.timeout_s client.model language (g.file_name wav_path) audio in
          (
            request ∷ [],
            call request "POST /audio/transcriptions" >>= (λ response. text_of response.json),
          ))
  ]

  unfoldable pub transcribe : Client → String → Option String → List Request × Result String
  transcribe client wav_path language = elim (list_models client.timeout_s) [
    | raises exc ↦ (get_models client.timeout_s ∷ [], raises exc)
    | ok models ↦
        if any (text_eq client.model) models
        then (let (requests, result) = upload client wav_path language in
            (get_models client.timeout_s ∷ requests, result))
        else (
          get_models client.timeout_s ∷ [],
          raises (
              pipeline_error
                ("model " <> g.repr client.model <> " not registered in LiteLLM gateway")
                "MODEL_NOT_PULLED" false),
        )
  ]

  unfoldable pub is_ready : Client → Bool
  is_ready client = elim (list_models client.readiness_timeout_s) [
    | raises exc ↦ false
    | ok models ↦ any (text_eq client.model) models
  ]
