-- ===== src/Retention/Cleanup.antt =====
-- `run_cleanup` of src/local_transcription_service/retention.py.
-- The trash directory is the list of its children as `iterdir` gives them; what the file system
-- answers is an argument: `unlink path` is the outcome of `path.unlink()`. Logging is not modelled.
pub mod Report
pub mod Rerun
use local_transcription_serv.Prelude.{
  ℕ, suc, ◌+◌, ◌-◌, String, Bool, true, false, Option, none, some, List, [], ◌∷◌, map, not, any,
  ◌&&◌, ◌||◌, length, text_eq, if◌then◌else◌,
}
use local_transcription_serv.Retention.{TrashEntry, RetentionPolicy, select_for_deletion}

-- A child: a subdirectory, one on which `is_dir` or `stat` raises OSError, or a file.
pub data Stat : Type 0 where
  subdir : Stat
  stat_failed : Stat
  stat_result : (mtime size : ℕ) → Stat

pub record Child : Type 0 where
  pub path : String
  pub stat : Stat

-- `uncreatable`: it is missing, and `mkdir` raises OSError. `unreadable`: `exists`, `is_dir` or
-- `iterdir` raises OSError.
pub data TrashDir : Type 0 where
  missing : TrashDir
  uncreatable : TrashDir
  not_directory : TrashDir
  unreadable : TrashDir
  directory : List Child → TrashDir

-- `unlink` returns, raises FileNotFoundError, or raises another OSError.
pub data Unlink : Type 0 where
  unlinked : Unlink
  file_not_found : Unlink
  os_error : Unlink

pub record CleanupReport : Type 0 where
  pub deleted : ℕ
  pub already_gone : ℕ
  pub kept : ℕ
  pub freed_bytes : ℕ
  pub dry_run : Bool

pub data Outcome : Type 0 where
  report : CleanupReport → Outcome
  not_a_directory_error : Outcome
  io_error : Outcome

-- The walk: subdirectories and failed stats are skipped.
unfoldable pub walk : List Child → List TrashEntry
walk [] = []
walk (child ∷ children) = elim child.stat [
  | subdir ↦ walk children
  | stat_failed ↦ walk children
  | stat_result mtime size ↦
      record { path = child.path; mtime = mtime; size = size } ∷ walk children
]

-- `entry.path in selection_paths`
unfoldable pub is_selected : List TrashEntry → String → Bool
is_selected [] path = false
is_selected (e ∷ selection) path = text_eq e.path path || is_selected selection path

-- The counters of the unlink loop.
pub record Counts : Type 0 where
  pub deleted : ℕ
  pub already_gone : ℕ
  pub freed_bytes : ℕ

-- One entry of the loop: `continue`, or the `try` with its handlers.
abbrev pub count_entry : (String → Unlink) → List TrashEntry → TrashEntry → Counts → Counts
count_entry unlink selection e n =
    if is_selected selection e.path
    then elim (unlink e.path) [
      | unlinked ↦ record n { deleted = n.deleted + 1; freed_bytes = n.freed_bytes + e.size }
      | file_not_found ↦ record n { already_gone = n.already_gone + 1 }
      | os_error ↦ n
    ]
    else n

-- The loop over `entries`.
unfoldable pub unlink_entries :
    (String → Unlink) → List TrashEntry → List TrashEntry → Counts → Counts
unlink_entries unlink selection [] n = n
unlink_entries unlink selection (e ∷ entries) n =
    unlink_entries unlink selection entries (count_entry unlink selection e n)

-- What the loop leaves of the directory: a child goes if it was selected and `unlink` removed it or
-- found it gone.
abbrev pub stays : (String → Unlink) → List TrashEntry → Child → Bool
stays unlink selection child = elim child.stat [
  | subdir ↦ true
  | stat_failed ↦ true
  | stat_result mtime size ↦
      not (is_selected selection child.path)
      || elim (unlink child.path) [ os_error ↦ true | _ ↦ false ]
]

unfoldable pub remaining : (String → Unlink) → List TrashEntry → List Child → List Child
remaining unlink selection [] = []
remaining unlink selection (child ∷ children) =
    let rest = remaining unlink selection children in
    if stays unlink selection child then child ∷ rest else rest

unfoldable pub cleanup_dir :
    RetentionPolicy → Bool → ℕ → (String → Unlink) → List Child → Outcome × List Child
cleanup_dir policy dry_run now unlink children =
    let entries = walk children in
    let selection = select_for_deletion policy now entries in
    let n =
      unlink_entries unlink selection entries
        (record { deleted = 0; already_gone = 0; freed_bytes = 0 }) in
    if dry_run
    then (
      report (record {
        deleted = 0;
        already_gone = 0;
        kept = length entries;
        freed_bytes = 0;
        dry_run = true;
      }),
      children,
    )
    else (
      report (record {
        deleted = n.deleted;
        already_gone = n.already_gone;
        kept = length entries - n.deleted - n.already_gone;
        freed_bytes = n.freed_bytes;
        dry_run = false;
      }),
      remaining unlink selection children,
    )

-- `run_cleanup`: the outcome, and the directory afterwards.
unfoldable pub run_cleanup :
    RetentionPolicy → Bool → ℕ → (String → Unlink) → TrashDir → Outcome × TrashDir
run_cleanup policy dry_run now unlink missing = (
  report (record { deleted = 0; already_gone = 0; kept = 0; freed_bytes = 0; dry_run = dry_run }),
  directory [],
)
run_cleanup policy dry_run now unlink uncreatable = (io_error, uncreatable)
run_cleanup policy dry_run now unlink not_directory = (not_a_directory_error, not_directory)
run_cleanup policy dry_run now unlink unreadable = (io_error, unreadable)
run_cleanup policy dry_run now unlink (directory children) =
    let (outcome, children') = cleanup_dir policy dry_run now unlink children in
    (outcome, directory children')
