-- ===== src/Retention/Cleanup/Rerun.antt =====
-- A second run right after a real one: `run_cleanup` of
-- src/local_transcription_service/retention.py.
use local_transcription_serv.Prelude.{
  ℕ, ◌≤◌, String, Bool, true, false, List, [], ◌∷◌, ◌++◌, length, not, ◌≡◌, ◌≢◌, refl, ◌∙◌, ap, sym,
  subst, if◌then◌else◌, arith, Bool-cases, inl, inr, All, All-append, All-mono, implies, sorted,
  sorted-All, sum_of, sum_of-sorted, text_eq_self,
}
use local_transcription_serv.Retention.{
  TrashEntry, RetentionPolicy, by_mtime, is_expired, select_for_deletion, total,
}
use local_transcription_serv.Retention.Selection.{
  IsCut, select_for_deletion-IsCut, select_for_deletion-eq-nil,
}
use local_transcription_serv.Retention.Cleanup.Report.{keep_if}
use local_transcription_serv.Retention.Cleanup.{
  Child, directory, Unlink, os_error, report, walk, is_selected, Counts, unlink_entries, remaining,
  cleanup_dir, run_cleanup,
}

abbrev pub spared : List TrashEntry → TrashEntry → Bool
spared selection e = not (is_selected selection e.path)

selected-is_selected :
    (selection : List TrashEntry) → All (λ e. is_selected selection e.path ≡ true) selection
unfolding is_selected
selected-is_selected [] = tt
selected-is_selected (e ∷ es) =
    (rw (text_eq_self e.path), All-mono _ _ es (λ f h. ground arith) (selected-is_selected es))

walk-remaining-spared :
    (unlink : String → Unlink) (selection : List TrashEntry)
    → ((path : String) → unlink path ≢ os_error)
    → (children : List Child)
    → walk (remaining unlink selection children) ≡ keep_if (spared selection) (walk children)
unfolding walk remaining keep_if
walk-remaining-spared unlink selection works [] = refl
walk-remaining-spared unlink selection works (child ∷ children) =
    ground (arith, works child.path, walk-remaining-spared unlink selection works children)

abbrev spared_size : List TrashEntry → TrashEntry → ℕ
spared_size selection e = if spared selection e then e.size else 0

total-keep_if :
    (selection es : List TrashEntry)
    → total (keep_if (spared selection) es) ≡ sum_of by_mtime (spared_size selection) es
unfolding total keep_if
total-keep_if selection [] = refl
total-keep_if selection (e ∷ es) = ground (arith, total-keep_if selection es)

keep_if-append :
    (test : TrashEntry → Bool) (xs ys : List TrashEntry)
    → keep_if test (xs ++ ys) ≡ keep_if test xs ++ keep_if test ys
unfolding keep_if
keep_if-append test [] ys = refl
keep_if-append test (x ∷ xs) ys = ground (arith, keep_if-append test xs ys)

keep_if-eq-nil :
    (selection es : List TrashEntry)
    → All (λ e. is_selected selection e.path ≡ true) es
    → keep_if (spared selection) es ≡ []
unfolding keep_if
keep_if-eq-nil selection [] h = refl
keep_if-eq-nil selection (e ∷ es) h = rw (h.0, keep_if-eq-nil selection es h.1)

total-keep_if-le :
    (test : TrashEntry → Bool) (es : List TrashEntry) → total (keep_if test es) ≤ total es
unfolding total keep_if
total-keep_if-le test [] = omega arith
total-keep_if-le test (e ∷ es) = ground (arith, total-keep_if-le test es)

keep_if-All :
    (test : TrashEntry → Bool) (bad : TrashEntry → Bool) (es : List TrashEntry)
    → All (λ e. implies (test e) (not (bad e)) ≡ true) es
    → All (λ e. bad e ≡ false) (keep_if test es)
unfolding keep_if
keep_if-All test bad [] h = tt
keep_if-All test bad (e ∷ es) h = elim (Bool-cases (test e)) [
  | inl f ↦ rw (f, keep_if) (ground arith, keep_if-All test bad es h.1)
  | inr f ↦ rw (f, keep_if) (keep_if-All test bad es h.1)
]

module _ (p : RetentionPolicy) (now : ℕ) (files kept : List TrashEntry) where
  spared_fits :
      (selection : List TrashEntry)
      → IsCut p now files selection kept
      → total (keep_if (spared selection) files) ≤ p.max_bytes
  spared_fits selection cut = omega (
    arith,
    cut.fits,
    total-keep_if selection files,
    sum_of-sorted by_mtime (spared_size selection) files,
    total-keep_if selection (sorted by_mtime files),
    ap (λ es. total (keep_if (spared selection) es)) cut.oldest_first,
    ap total (keep_if-append (spared selection) selection kept),
    ap (λ es. total (es ++ keep_if (spared selection) kept))
        (keep_if-eq-nil selection selection (selected-is_selected selection)),
    total-keep_if-le (spared selection) kept,
  )

  spared_fresh :
      (selection : List TrashEntry)
      → IsCut p now files selection kept
      → All (λ e. is_expired p now e ≡ false) (keep_if (spared selection) files)
  spared_fresh selection cut = keep_if-All (spared selection) (is_expired p now) files (
      sorted-All by_mtime Fine files (
        subst (All Fine) (sym cut.oldest_first) (
          All-append Fine selection kept
            (All-mono _ Fine selection (λ e h. ground arith) (selected-is_selected selection))
            (All-mono _ Fine kept (λ e h. ground arith) cut.fresh))))
    where
      Fine : TrashEntry → Type 0
      Fine e = implies (spared selection e) (not (is_expired p now e)) ≡ true

unlink_nothing :
    (unlink : String → Unlink) (entries : List TrashEntry) (n : Counts)
    → unlink_entries unlink [] entries n ≡ n
unfolding unlink_entries is_selected
unlink_nothing unlink [] n = refl
unlink_nothing unlink (e ∷ entries) n = unlink_nothing unlink entries n

remaining_all :
    (unlink : String → Unlink) (children : List Child) → remaining unlink [] children ≡ children
unfolding remaining is_selected
remaining_all unlink [] = refl
remaining_all unlink (child ∷ children) = ground (arith, remaining_all unlink children)

-- A run on a directory of which nothing is selected.
idle_run :
    (p : RetentionPolicy) (now : ℕ) (unlink : String → Unlink) (children : List Child)
    → select_for_deletion p now (walk children) ≡ []
    → run_cleanup p false now unlink (directory children) ≡ (
      report (record {
        deleted = 0;
        already_gone = 0;
        kept = length (walk children);
        freed_bytes = 0;
        dry_run = false;
      }),
      directory children,
    )
unfolding run_cleanup cleanup_dir
idle_run p now unlink children e = rw e (simp (unlink_nothing, remaining_all) (ground arith))

-- A real run in which no `unlink` fails, and then another at the same time: the second reports that
-- it deleted nothing and found nothing gone, and leaves the directory as it is, whatever `unlink`
-- would do then.
pub run_cleanup_twice :
    (p : RetentionPolicy) (now : ℕ) (unlink again : String → Unlink) (children : List Child)
    → ((path : String) → unlink path ≢ os_error)
    → let after = (run_cleanup p false now unlink (directory children)).1 in
      run_cleanup p false now again after ≡ (
        report (record {
          deleted = 0;
          already_gone = 0;
          kept =
              length (keep_if (spared (select_for_deletion p now (walk children))) (walk children));
          freed_bytes = 0;
          dry_run = false;
        }),
        after,
      )
unfolding run_cleanup cleanup_dir
run_cleanup_twice p now unlink again children works =
    idle_run p now again after (
      rw left (
        select_for_deletion-eq-nil p now (keep_if (spared selection) (walk children))
          (spared_fresh p now (walk children) cut.0 selection cut.1)
          (spared_fits p now (walk children) cut.0 selection cut.1)))
    ∙ λ i. (
      report (record {
        deleted = 0;
        already_gone = 0;
        kept = length (left i);
        freed_bytes = 0;
        dry_run = false;
      }),
      directory after,
    )
  where
    selection : List TrashEntry
    selection = select_for_deletion p now (walk children)

    after : List Child
    after = remaining unlink selection children

    left : walk after ≡ keep_if (spared selection) (walk children)
    left = walk-remaining-spared unlink selection works children

    cut : (kept : List TrashEntry) × IsCut p now (walk children) selection kept
    cut = select_for_deletion-IsCut p now (walk children)
