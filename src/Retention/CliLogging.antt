-- ===== src/Retention/CliLogging.antt =====
-- The log of the command on stderr: `_configure_cli_logging` of
-- src/local_transcription_service/retention.py with its formatter, against that of
-- src/local_transcription_service/logging.py. `strftime` is an argument.
use local_transcription_serv.Prelude.{
  ℕ, String, Bool, true, false, ◌||◌, none, List, [], ◌∷◌, ◌≡◌, ◌≢◌, refl, ◌∙◌, sym, ap, subst,
  arith, any, every, text_eq, text_eq_iff, text_eq_ne, starts_with, Bool-cases, inl, inr,
}
use local_transcription_serv.Models.{Calendar}
use local_transcription_serv.Logging.{
  LogRecord, Root, reserved_log_record_keys, is_hidden, payload_with, payload, add_handler,
}
use local_transcription_serv.Logging.Payload.{lookup, UniqueKeys, shown, lookup-payload_with}

-- The set `reserved`
abbrev pub reserved : List String
reserved =
    "name" ∷ "msg" ∷ "args" ∷ "levelname" ∷ "levelno" ∷ "pathname" ∷ "filename" ∷ "module"
    ∷ "exc_info" ∷ "exc_text" ∷ "stack_info" ∷ "lineno" ∷ "funcName" ∷ "created" ∷ "msecs"
    ∷ "relativeCreated" ∷ "thread" ∷ "threadName" ∷ "processName" ∷ "process" ∷ "message"
    ∷ "taskName" ∷ []

module _ {V : Type 0} (text : String → V) (strftime : ℕ → String) where
  -- `_JsonFormatter.format` up to `json.dumps`
  unfoldable pub cli_payload : LogRecord V → List (String × V)
  cli_payload r = payload_with text reserved (strftime r.created) r

  -- `_JsonFormatter.format`
  unfoldable pub cli_format : (List (String × V) → String) → LogRecord V → String
  cli_format dumps r = dumps (cli_payload r)

-- `_configure_cli_logging`, with the new handler: a logger that has handlers is left alone.
unfoldable pub configure_cli_logging : ℕ → Root → Root
configure_cli_logging handler root = elim root.handlers [
  | [] ↦ record root { handlers = add_handler handler []; level = "INFO" }
  | h ∷ handlers ↦ root
]

-- A set of keys that another one covers.
any-covers :
    (key : String) (xs ys : List String)
    → every (λ k. any (λ q. text_eq q k) ys) xs ≡ true
    → any (λ k. text_eq k key) xs ≡ true
    → any (λ k. text_eq k key) ys ≡ true
any-covers key [] ys c h = absurd (ground arith)
any-covers key (x ∷ xs) ys c h = elim (Bool-cases (text_eq x key)) [
  | inl e ↦ (let same : x ≡ key = (text_eq_iff x key).0 e in rw (← same) (ground arith))
  | inr e ↦ any-covers key xs ys (ground arith) (ground arith)
]

service_covers : every (λ k. any (λ q. text_eq q k) reserved_log_record_keys) reserved ≡ true
unfolding text_eq
service_covers = refl

cli_covers :
    every (λ k. any (λ q. text_eq q k) ("asctime" ∷ reserved)) reserved_log_record_keys ≡ true
unfolding text_eq
cli_covers = refl

same_of_implies : (a b : Bool) → (a ≡ true → b ≡ true) → (b ≡ true → a ≡ true) → a ≡ b
same_of_implies true b f g = sym (f refl)
same_of_implies false true f g = g refl
same_of_implies false false f g = refl

-- The two formatters hide the same keys but for `asctime`.
is_hidden-agrees :
    (key : String)
    → text_eq "asctime" key ≡ false
    → is_hidden reserved key ≡ is_hidden reserved_log_record_keys key
unfolding is_hidden
is_hidden-agrees key other =
    ap (λ b. b || starts_with key "_")
      (same_of_implies (any (λ k. text_eq k key) reserved)
        (any (λ k. text_eq k key) reserved_log_record_keys)
        (any-covers key reserved reserved_log_record_keys service_covers)
        (λ h.
          rw other at
            (any-covers key reserved_log_record_keys ("asctime" ∷ reserved) cli_covers h)))

module _ {V : Type 0} (text : String → V) (strftime : ℕ → String) (c : Calendar) where
  shown-asctime :
      (ts ts' : String) (r : LogRecord V)
      → lookup "asctime" r.attributes ≡ none
      → shown text reserved ts r "asctime" ≡ shown text reserved_log_record_keys ts' r "asctime"
  unfolding is_hidden text_eq starts_with
  shown-asctime ts ts' r free = rw free refl

  shown-agrees :
      (ts ts' key : String) (r : LogRecord V)
      → lookup "asctime" r.attributes ≡ none
      → text_eq "ts" key ≡ false
      → shown text reserved ts r key ≡ shown text reserved_log_record_keys ts' r key
  shown-agrees ts ts' key r free other = elim (Bool-cases (text_eq "asctime" key)) [
    | inl e ↦
        subst (λ k. shown text reserved ts r k ≡ shown text reserved_log_record_keys ts' r k)
          ((text_eq_iff "asctime" key).0 e) (shown-asctime ts ts' r free)
    | inr e ↦ rw (is_hidden-agrees key e, other) refl
  ]

  -- A record of the command reads like one of the service: if it has no attribute `asctime` and its
  -- attributes have different names, the two formatters show the same under every key but `ts`.
  pub cli_payload-agrees :
      (r : LogRecord V)
      → UniqueKeys r.attributes
      → lookup "asctime" r.attributes ≡ none
      → (key : String) → "ts" ≢ key
      → lookup key (cli_payload text strftime r) ≡ lookup key (payload text c r)
  unfolding cli_payload payload
  cli_payload-agrees r u free key other =
      lookup-payload_with text reserved _ r key u
      ∙ shown-agrees _ _ key r free (text_eq_ne "ts" key other)
      ∙ sym (lookup-payload_with text reserved_log_record_keys _ r key u)
