-- ===== src/OpenApi.antt =====
-- The script that writes the OpenAPI document: scripts/extract-openapi.py. The answer of `httpx.get`,
-- the schema that FastAPI generates for `create_app`, `json.dumps` and the file system are arguments,
-- as are the values that argparse finds on the command line.
pub mod Writing
use local_transcription_serv.Prelude.{
  ℕ, String, ◌<>◌, Bool, true, false, not, ◌&&◌, Option, none, some, leb, text_eq, is_some,
  if◌then◌else◌,
}
use local_transcription_serv.Stt.{
  Json, null, boolean, integer, floating, string, array, object, Elements, no_elements, element,
  Members, no_members, member, Response, Reply, answer, request_error, fault,
}
use local_transcription_serv.Transcripts.{Files}
use local_transcription_serv.FileWrite.{Write, on_write}

-- `parser.parse_args(argv)`
pub record Arguments : Type 0 where
  pub url : Option String
  pub from_app : Bool
  pub out : String

pub record Surroundings : Type 0 where
  pub get : String → Reply
  -- `_from_app()`: a dict, or an exception of an import, of `Settings` or of `create_app`
  pub schema : Option Members
  -- `json.dumps(schema, indent=2, sort_keys=False)`
  pub dumps : Json → String
  -- `mkdir` of the parent and `write_text` of a path and a text
  pub write : String → String → Write
  -- whether stdout takes the lines that are printed
  pub prints : Bool

-- `main` returns 0, is left by `parser.error` with exit code 2, or raises.
pub data Ending : Type 0 where
  returned : Ending
  usage_error : Ending
  raised : Ending

-- `if args.url`
unfoldable pub given_url : Arguments → Option String
given_url args = elim args.url [
  | none ↦ none
  | some url ↦ if text_eq url "" then none else some url
]

-- `raise_for_status`, then `json`; `none` is an exception.
unfoldable pub json_of : Reply → Option Json
json_of (answer r) = if leb 200 r.status_code && leb r.status_code 299 then r.json else none
json_of (request_error text) = none
json_of (fault type_name text) = none

-- The schema as a dict: what FastAPI gives, or the document at the URL. A JSON value that is no dict
-- has no `model_dump`.
unfoldable pub dict_of : Option Json → Option Members
dict_of (some (object m)) = some m
dict_of _ = none

unfoldable pub schema_of : Surroundings → Arguments → Option Members
schema_of e args = elim (given_url args) [
  | none ↦ e.schema
  | some url ↦ dict_of (json_of (e.get url))
]

-- `schema.get(key, …)`, where a missing key is none
unfoldable pub find : String → Members → Option Json
find key no_members = none
find key (member k value m) = if text_eq k key then some value else find key m

abbrev pub has_get : Option Json → Bool
has_get none = true
has_get (some (object m)) = true
has_get (some _) = false

abbrev pub are_strings : Elements → Bool
are_strings no_elements = true
are_strings (element (string s) xs) = are_strings xs
are_strings (element _ xs) = false

-- Whether `len`, `sorted` and `join` take the value.
abbrev pub joins : Option Json → Bool
joins none = true
joins (some (object m)) = true
joins (some (string s)) = true
joins (some (array xs)) = are_strings xs
joins (some _) = false

-- The statements that print the statistics, after the file is written.
unfoldable pub print_stats : Surroundings → Members → Ending
print_stats e m =
    if has_get (find "info" m) && (joins (find "paths" m) && e.prints) then returned else raised

-- The output file holds a text.
abbrev pub write_out : Arguments → String → Files → Files
write_out args text files path = if text_eq path args.out then some text else files path

-- `json.dumps(…) + "\n"`
abbrev pub document : Surroundings → Members → String
document e m = e.dumps (object m) <> "\n"

-- `args.url and args.from_app`
unfoldable pub is_conflict : Arguments → Bool
is_conflict args = is_some (given_url args) && args.from_app

-- `main` from the test of the schema on.
unfoldable pub write_schema : Surroundings → Arguments → Files → Option Members → Ending × Files
write_schema e args files none = (raised, files)
write_schema e args files (some m) =
    on_write (e.write args.out (document e m))
      (print_stats e m, write_out args (document e m) files) (raised, files)
      (λ left. (raised, write_out args left files))

-- `main`: its end, and the files afterwards.
unfoldable pub main : Surroundings → Arguments → Files → Ending × Files
main e args files =
    if is_conflict args then (usage_error, files) else write_schema e args files (schema_of e args)
