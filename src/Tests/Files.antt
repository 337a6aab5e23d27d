-- ===== src/Tests/Files.antt =====
-- The theorems on the trash and its files at concrete inputs.
use local_transcription_serv.Prelude.{
  ℕ, String, Bool, true, false, none, some, List, [], ◌∷◌, ◌≡◌, ◌≢◌, ◌∙◌, sym, ◌<>◌, text_eq,
  length, ap, if◌then◌else◌, arith,
}
use local_transcription_serv.Retention.{TrashEntry, RetentionPolicy, select_for_deletion}
use local_transcription_serv.Retention.Selection.{IsCut, select_for_deletion-IsCut}
use local_transcription_serv.Retention.Cleanup.{
  Child, subdir, stat_result, TrashDir, directory, Unlink, unlinked, file_not_found, os_error,
  CleanupReport, report, walk, run_cleanup,
}
use local_transcription_serv.Retention.Cleanup.Report.{Accounts, keep_if, run_cleanup-Accounts}
use local_transcription_serv.Retention.Cleanup.Rerun.{spared, run_cleanup_twice}
use local_transcription_serv.Retention.Command.{Environment, resolved, amain}
use local_transcription_serv.Retention.Exit.{Ended, amain-Ended}
use local_transcription_serv.Transcripts.{Files, FileSystem, renamed, move_to_trash}
use local_transcription_serv.Transcripts.Move.{Kept, move_to_trash-Kept}

abbrev file : String → ℕ → ℕ → TrashEntry
file path mtime size = record { path = path; mtime = mtime; size = size }

abbrev policy : RetentionPolicy
policy = record { ttl_days = 1; max_bytes = 10 }

abbrev files : List TrashEntry
files = file "new" 200000 8 ∷ file "old" 5 4 ∷ file "big" 190000 9 ∷ []

select_for_deletion-IsCut_example :
    (kept : List TrashEntry) × IsCut policy 200000 files
      (select_for_deletion policy 200000 files)
      kept
select_for_deletion-IsCut_example = select_for_deletion-IsCut policy 200000 files

abbrev child : String → ℕ → ℕ → Child
child path mtime size = record { path = path; stat = stat_result mtime size }

abbrev children : List Child
children = child "new" 200000 8 ∷ record { path = "dir"; stat = subdir } ∷ child "old" 5 4 ∷ []

abbrev removes : String → Unlink
removes path = if text_eq path "old" then unlinked else file_not_found

run_cleanup-Accounts_example :
    (r : CleanupReport) × (after : List Child) × (run_cleanup policy false 200000 removes
        (directory children)
      ≡ (report r, directory after))
    × Accounts removes (select_for_deletion policy 200000 (walk children)) children after r
run_cleanup-Accounts_example = run_cleanup-Accounts policy 200000 removes children

abbrev all_gone : String → Unlink
all_gone path = file_not_found

abbrev busy : String → Unlink
busy path = os_error

gone_is_no_error : (path : String) → all_gone path ≢ os_error
gone_is_no_error path e = absurd (clash (ap fails e))
  where
    fails : Unlink → Bool
    fails os_error = true
    fails _ = false

    clash : false ≡ true → ⊥
    clash h = ground arith

run_cleanup_twice_example :
    let after = (run_cleanup policy false 200000 all_gone (directory children)).1 in
    run_cleanup policy false 200000 busy after ≡ (
      report (record {
        deleted = 0;
        already_gone = 0;
        kept =
            length (
              keep_if (spared (select_for_deletion policy 200000 (walk children))) (walk children));
        freed_bytes = 0;
        dry_run = false;
      }),
      after,
    )
run_cleanup_twice_example = run_cleanup_twice policy 200000 all_gone busy children gone_is_no_error

abbrev environment : Environment
environment = record {
  getenv = λ name. none;
  int_of_text = λ raw. none;
  resolve = λ path. resolved path;
  default_data_dir = resolved "data";
  decimal = λ n. "0";
  stdout_error = some "retention: ";
}

abbrev trash : String → TrashDir
trash dir = directory children

amain-Ended_example :
    let run = amain environment none false 200000 removes trash in
    Ended environment none false 200000 removes trash run.exit run
amain-Ended_example = amain-Ended environment none false 200000 removes trash

abbrev pub file_system : FileSystem
file_system = record {
  name = λ path. if text_eq path "results/a.md" then "a.md" else path;
  join = λ dir name. dir <> "/" <> name;
  resolve = λ path. some path;
  mkdir = λ dir. true;
  replace = λ source destination. renamed;
}

abbrev pub transcripts : Files
transcripts path = if text_eq path "results/a.md" then some "text" else none

same_files :
    (p q d : String)
    → file_system.resolve p ≡ some d
    → file_system.resolve q ≡ some d
    → transcripts p ≡ transcripts q
same_files p q d e f = ap transcripts (text_of_some (e ∙ sym f))
  where
    text_of_some : some p ≡ some q → p ≡ q
    text_of_some h = ground arith

move_to_trash-Kept_example :
    Kept file_system "trash"
      (some "results/a.md")
      transcripts
      (move_to_trash file_system "trash" (some "results/a.md") transcripts)
move_to_trash-Kept_example =
    move_to_trash-Kept file_system "trash" transcripts (some "results/a.md") same_files

pub elsewhere : ◌≢◌ {A = String} "results/a.md" "trash/a.md"
unfolding text_eq
elsewhere h = absurd (clash (ap (text_eq "results/a.md") h))
  where
    clash : true ≡ false → ⊥
    clash k = ground arith
