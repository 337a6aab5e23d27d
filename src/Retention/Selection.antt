-- ===== src/Retention/Selection.antt =====
-- What `select_for_deletion` of src/local_transcription_service/retention.py selects.
use mathlib.Core.List.{append_assoc}
use local_transcription_serv.Prelude.{
  ℕ, ◌≤◌, false, List, [], ◌∷◌, ◌++◌, ◌≡◌, refl, ◌∙◌, ap, sym, subst, All, sorted, IsSorted,
  All-sorted, sum_of, sum_of-sorted, arith,
}
use local_transcription_serv.Retention.{
  TrashEntry, RetentionPolicy, by_mtime, total, is_expired, split_expired, over_cap,
  select_for_deletion,
}
use local_transcription_serv.Retention.Passes.{
  Needed, files-IsSorted, All-suffix, IsSorted-suffix, over_cap_fits, split_expired_young,
  split_expired-IsSplit, over_cap-CutsCap, Needed-append,
}

-- What the selected and the kept files have to be.
pub record IsCut (p : RetentionPolicy) (now : ℕ) (files selected kept : List TrashEntry)
    : Type 0 where
  pub oldest_first : sorted by_mtime files ≡ selected ++ kept
  pub fresh : All (λ e. is_expired p now e ≡ false) kept
  pub fits : total kept ≤ p.max_bytes
  pub needed : Needed p now selected kept

-- The files sorted oldest first are the selected ones and then some kept ones. No kept file has
-- outlived its term and the kept ones fit under the cap; and the selection is no longer than it
-- has to be: each selected file is expired, or from it on the files exceed the cap.
pub select_for_deletion-IsCut :
    (p : RetentionPolicy) (now : ℕ) (files : List TrashEntry)
    → (kept : List TrashEntry) × IsCut p now files (select_for_deletion p now files) kept
unfolding select_for_deletion
select_for_deletion-IsCut p now files =
    let split = split_expired-IsSplit p now (sorted by_mtime files) (files-IsSorted files) in
    let (ttl_selected, survivors) = split_expired (is_expired p now) (sorted by_mtime files) in
    let (kept, cut) = over_cap-CutsCap p now survivors (
      IsSorted-suffix ttl_selected survivors
        (subst (IsSorted by_mtime) split.whole (files-IsSorted files))) in
    (
      kept,
      record {
        oldest_first =
            split.whole
            ∙ ap (◌++◌ ttl_selected) cut.whole
            ∙ sym (append_assoc ttl_selected (over_cap p.max_bytes survivors) kept);
        fresh =
            All-suffix _ (over_cap p.max_bytes survivors) kept
              (subst (All (λ e. is_expired p now e ≡ false)) cut.whole split.young);
        fits = cut.fits;
        needed =
            Needed-append p now ttl_selected (over_cap p.max_bytes survivors) kept split.old
              cut.needed;
      },
    )

over_cap_nothing :
    (max_bytes : ℕ) (es : List TrashEntry)
    → IsSorted by_mtime es
    → total es ≤ max_bytes
    → over_cap max_bytes es ≡ []
over_cap_nothing max_bytes [] s h = unfold over_cap in refl
over_cap_nothing max_bytes (e ∷ es) s h = over_cap_fits max_bytes e es s h

total-eq-sum_of : (es : List TrashEntry) → total es ≡ sum_of by_mtime (λ e. e.size) es
unfolding total
total-eq-sum_of [] = refl
total-eq-sum_of (e ∷ es) = omega (arith, total-eq-sum_of es)

total-sorted : (es : List TrashEntry) → total (sorted by_mtime es) ≡ total es
total-sorted es =
    total-eq-sum_of (sorted by_mtime es)
    ∙ sum_of-sorted by_mtime (λ e. e.size) es
    ∙ sym (total-eq-sum_of es)

-- Nothing is selected of files that are within their term and fit under the cap.
pub select_for_deletion-eq-nil :
    (p : RetentionPolicy) (now : ℕ) (files : List TrashEntry)
    → All (λ e. is_expired p now e ≡ false) files
    → total files ≤ p.max_bytes
    → select_for_deletion p now files ≡ []
unfolding select_for_deletion
select_for_deletion-eq-nil p now files fresh fits =
    rw
      (split_expired_young (is_expired p now) (sorted by_mtime files)
        (All-sorted by_mtime _ files fresh))
      (over_cap_nothing p.max_bytes (sorted by_mtime files) (files-IsSorted files)
        (omega (arith, total-sorted files)))
