-- ===== src/Retention/Cleanup/Report.antt =====
-- The numbers of the report of src/local_transcription_service/retention.py, against the directory
-- before and after the run.
use local_transcription_serv.Prelude.{
  ℕ, ◌+◌, String, Bool, true, false, List, [], ◌∷◌, length, ◌&&◌, ◌≡◌, refl, if◌then◌else◌, arith,
}
use local_transcription_serv.Retention.{TrashEntry, RetentionPolicy, select_for_deletion, total}
use local_transcription_serv.Retention.Cleanup.{
  Child, directory, Unlink, unlinked, file_not_found, CleanupReport, report, walk, is_selected,
  Counts, count_entry, unlink_entries, remaining, cleanup_dir, run_cleanup,
}

-- The entries with one outcome among the selected ones.
abbrev pub removed_by : (String → Unlink) → List TrashEntry → TrashEntry → Bool
removed_by unlink selection e =
    is_selected selection e.path && elim (unlink e.path) [ unlinked ↦ true | _ ↦ false ]

abbrev pub gone_before : (String → Unlink) → List TrashEntry → TrashEntry → Bool
gone_before unlink selection e =
    is_selected selection e.path && elim (unlink e.path) [ file_not_found ↦ true | _ ↦ false ]

unfoldable pub keep_if : (TrashEntry → Bool) → List TrashEntry → List TrashEntry
keep_if test [] = []
keep_if test (e ∷ es) = let rest = keep_if test es in if test e then e ∷ rest else rest

module _ (unlink : String → Unlink) (selection : List TrashEntry) where
  unlink_entries-counts :
      (entries : List TrashEntry) (n : Counts)
      → let m = unlink_entries unlink selection entries n in
        (m.deleted ≡ n.deleted + length (keep_if (removed_by unlink selection) entries))
        × (m.already_gone
            ≡ n.already_gone + length (keep_if (gone_before unlink selection) entries))
        × (m.freed_bytes ≡ n.freed_bytes + total (keep_if (removed_by unlink selection) entries))
  unfolding unlink_entries keep_if total
  unlink_entries-counts [] n = omega arith
  unlink_entries-counts (e ∷ entries) n =
      ground (arith, unlink_entries-counts entries (count_entry unlink selection e n))

  -- What is left of the directory, walked again: the entries that were neither removed nor gone.
  pub walk-remaining :
      (children : List Child)
      → length (walk (remaining unlink selection children))
          + length (keep_if (removed_by unlink selection) (walk children))
          + length (keep_if (gone_before unlink selection) (walk children))
        ≡ length (walk children)
  unfolding walk remaining keep_if
  walk-remaining [] = omega arith
  walk-remaining (child ∷ children) = ground (arith, walk-remaining children)

-- What the report of a real run says of the directory before (`children`) and after (`after`).
pub record Accounts (unlink : String → Unlink) (selection : List TrashEntry)
    (children after : List Child) (r : CleanupReport) : Type 0 where
  pub walked : r.deleted + r.already_gone + r.kept ≡ length (walk children)
  pub kept : r.kept ≡ length (walk after)
  pub deleted : r.deleted ≡ length (keep_if (removed_by unlink selection) (walk children))
  pub already_gone :
      r.already_gone ≡ length (keep_if (gone_before unlink selection) (walk children))
  pub freed_bytes : r.freed_bytes ≡ total (keep_if (removed_by unlink selection) (walk children))
  pub real : r.dry_run ≡ false

-- A real run on a readable directory reports how many selected files it unlinked, their size, how
-- many were gone already, and as kept how many files a walk of the directory finds afterwards; the
-- three counts add up to the files that it walked over.
pub run_cleanup-Accounts :
    (p : RetentionPolicy) (now : ℕ) (unlink : String → Unlink) (children : List Child)
    → (r : CleanupReport) × (after : List Child) × (run_cleanup p false now unlink
          (directory children)
        ≡ (report r, directory after))
      × Accounts unlink (select_for_deletion p now (walk children)) children after r
unfolding run_cleanup cleanup_dir
run_cleanup-Accounts p now unlink children =
    let selection = select_for_deletion p now (walk children) in
    let start : Counts = record { deleted = 0; already_gone = 0; freed_bytes = 0 } in
    let counts = unlink_entries-counts unlink selection (walk children) start in
    let left = walk-remaining unlink selection children in
    (
      _,
      _,
      refl,
      record {
        walked = omega (arith, counts, left);
        kept = omega (arith, counts, left);
        deleted = omega (arith, counts);
        already_gone = omega (arith, counts);
        freed_bytes = omega (arith, counts);
        real = refl;
      },
    )
