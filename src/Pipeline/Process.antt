-- ===== src/Pipeline/Process.antt =====
-- The audio cache and the programs that work on it: `_run_subprocess` of
-- src/local_transcription_service/pipeline/stages.py. The operating system, `pathlib` and the text
-- methods of the standard library are the fields of `Machine`. A file of the cache directory is
-- known by its name there. Cancellation is not modelled.
use local_transcription_serv.Prelude.{ℤ, String, Bool, Option, none, some, List, []}
use local_transcription_serv.Pipeline.{Result, ok, raises}

pub record Entry : Type 0 where
  pub name : String
  pub is_file : Bool

-- The cache directory, and `none` where it does not exist.
abbrev pub Cache : Type 0
Cache = Option (List Entry)

abbrev pub entries : Cache → List Entry
entries none = []
entries (some es) = es

-- What becomes of a program: `create_subprocess_exec` raises FileNotFoundError; it raises another
-- exception (no TimeoutError), or the time is over and `kill` raises because the program has gone;
-- the program ends within the time; or it does not.
pub data Process : Type 0 where
  missing : Process
  refused : (type_name text : String) → Process
  completes : (returncode : ℤ) (stdout stderr : String) → Process
  hangs : Process

pub record Machine : Type 0 where
  -- A program with its arguments and its time in seconds, and the cache once it has ended, was
  -- killed or did not start. Other jobs may use the cache meanwhile.
  pub program : List String → String → Cache → Cache × Process
  -- the exception of `cache_dir.mkdir(parents=True, exist_ok=True)` and of `cache_dir.iterdir()`
  pub mkdir : Option (String × String)
  pub iterdir : Option (String × String)
  -- whether `unlink` of a name succeeds; else it raises an OSError
  pub unlink : String → Bool
  -- whether a name matches the pattern of `glob`
  pub matches : String → String → Bool
  -- `dir / name`, `bytes.decode("utf-8", errors="replace")`, `str.lower`, `str` of an int, `repr`
  pub join : String → String → String
  pub decode : String → String
  pub lower : String → String
  pub decimal : ℤ → String
  pub repr : String → String

-- `_ProcResult`
pub record ProcResult : Type 0 where
  pub returncode : ℤ
  pub stdout : String
  pub stderr : String

-- How `_run_subprocess` ends.
pub data Ran : Type 0 where
  returned : ProcResult → Ran
  file_not_found : Ran
  timeout_error : Ran
  failed : (type_name text : String) → Ran

-- A timeout kills the program and is raised again.
abbrev pub ran : Process → Ran
ran missing = file_not_found
ran (refused type_name text) = failed type_name text
ran (completes returncode stdout stderr) =
    returned (record { returncode = returncode; stdout = stdout; stderr = stderr })
ran hangs = timeout_error

unfoldable pub run_subprocess : Machine → List String → String → Cache → Cache × Ran
run_subprocess m argv proc_timeout_s cache =
    let (next, process) = m.program argv proc_timeout_s cache in (next, ran process)

-- A statement that may change the cache and may raise.
abbrev pub Stage : Type 0 → Type 0
Stage A = Cache → Cache × Result A

-- The statements after one that has come to an end: an exception skips them.
abbrev pub continue : {A B : Type 0} → (A → Stage B) → Cache × Result A → Cache × Result B
continue f (cache, ok a) = f a cache
continue f (cache, raises exc) = (cache, raises exc)

infixl 5 ◌>>=◌
abbrev pub ◌>>=◌ : {A B : Type 0} → Stage A → (A → Stage B) → Stage B
◌>>=◌ stage f cache = continue f (stage cache)
