-- ===== src/Retention/Command.antt =====
-- The command line of src/local_transcription_service/retention.py: the data directory, the policy
-- from the environment, and `amain` with its exit code and its summary.
-- Paths, `int` on a text, `str` of an int and the environment are arguments, as are the values that
-- argparse finds on the command line.
use local_transcription_serv.Prelude.{
  ℤ, pos, ℕ, String, ◌<>◌, Bool, true, false, Option, none, some, ◌>>=◌, text_eq, if◌then◌else◌,
}
use local_transcription_serv.Retention.{
  RetentionPolicy, retention_policy, default_ttl_days, default_max_bytes,
}
use local_transcription_serv.Retention.Cleanup.{
  TrashDir, Unlink, CleanupReport, Outcome, report, not_a_directory_error, io_error, run_cleanup,
}

-- What becomes of a path that is resolved: a path, an OSError or a ValueError, or a RuntimeError: the
-- home directory cannot be found, or links go round in a circle.
pub data Resolved : Type 0 where
  resolved : String → Resolved
  config_error runtime_error : Resolved

-- What the module reads of its surroundings.
pub record Environment : Type 0 where
  pub getenv : String → Option String
  -- `int(raw)`; `none` is a ValueError
  pub int_of_text : String → Option ℤ
  -- `Path(…).expanduser().resolve()`
  pub resolve : String → Resolved
  -- `Path.home() / ".local-transcription"`
  pub default_data_dir : Resolved
  -- `str` of an int
  pub decimal : ℕ → String
  -- where writing the summary to stdout, or flushing it, raises: what of it came through
  pub stdout_error : Option String

-- `_resolve_data_dir`
unfoldable pub resolve_data_dir : Environment → Option String → Resolved
resolve_data_dir env (some flag) = env.resolve flag
resolve_data_dir env none = elim (env.getenv "LTS_DATA_DIR") [
  | none ↦ env.default_data_dir
  | some value ↦ if text_eq value "" then env.default_data_dir else env.resolve value
]

abbrev pub knob : Environment → Option String → ℕ → Option ℤ
knob env none default = some (pos default)
knob env (some raw) default = env.int_of_text raw

-- `_resolve_policy`; `none` is a ValueError.
unfoldable pub resolve_policy : Environment → Option RetentionPolicy
resolve_policy env = do
  ttl_days ← knob env (env.getenv "LTS_TRASH_TTL_DAYS") default_ttl_days
  max_bytes ← knob env (env.getenv "LTS_TRASH_MAX_BYTES") default_max_bytes
  retention_policy ttl_days max_bytes

-- `amain` returns an exit code, or an exception leaves it.
pub data Exit : Type 0 where
  exited : ℕ → Exit
  raised : Exit

-- What a run leaves: how it ended, what it wrote on stdout, and the trash directories, by the data
-- directory they are in.
pub record CliRun : Type 0 where
  pub exit : Exit
  pub stdout : String
  pub trash : String → TrashDir

-- `str` of a bool
abbrev pub bool_text : Bool → String
bool_text true = "True"
bool_text false = "False"

-- The line for an operator.
unfoldable pub summary : Environment → CleanupReport → String
summary env r =
    "retention: deleted="
    <> env.decimal r.deleted
    <> " already_gone="
    <> env.decimal r.already_gone
    <> " kept="
    <> env.decimal r.kept
    <> " freed_bytes="
    <> env.decimal r.freed_bytes
    <> " dry_run="
    <> bool_text r.dry_run
    <> "\n"

-- The end of a run after the clean-up: its exit and its stdout. The summary is written only after a
-- report.
unfoldable pub finish : Environment → Outcome → Exit × String
finish env (report r) = elim env.stdout_error [
  | none ↦ (exited 0, summary env r)
  | some part ↦ (raised, part)
]
finish env not_a_directory_error = (exited 2, "")
finish env io_error = (exited 2, "")

-- `amain`
unfoldable pub amain :
    Environment → Option String → Bool → ℕ → (String → Unlink) → (String → TrashDir) → CliRun
amain env data_dir_flag dry_run now unlink trash = elim (resolve_data_dir env data_dir_flag) [
  | config_error ↦ record { exit = exited 1; stdout = ""; trash = trash }
  | runtime_error ↦ record { exit = raised; stdout = ""; trash = trash }
  | resolved data_dir ↦ elim (resolve_policy env) [
    | none ↦ record { exit = exited 1; stdout = ""; trash = trash }
    | some policy ↦
        let (outcome, after) = run_cleanup policy dry_run now unlink (trash data_dir) in
        let (exit, stdout) = finish env outcome in
        record {
          exit = exit;
          stdout = stdout;
          trash = λ d. if text_eq d data_dir then after else trash d;
        }
  ]
]
