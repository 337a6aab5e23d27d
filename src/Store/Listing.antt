-- ===== src/Store/Listing.antt =====
-- What `list_by_status` of src/local_transcription_service/queue/store.py returns, against
-- `count_by_status`.
use local_transcription_serv.Prelude.{
  ℕ, zero, suc, Bool, true, Option, none, some, List, [], ◌∷◌, ◌≡◌, refl, ◌∙◌, ap, subst, sym,
  length, take, All, sorted, All-sorted, sum_of, sum_of-sorted, leb, text_eq, Option-cases, inl,
  inr, Bool-cases, arith, if◌then◌else◌,
}
use local_transcription_serv.Models.{Calendar, Job, Row, from_row}
use local_transcription_serv.Models.Status.{JobStatus, value}
use local_transcription_serv.Store.Table.{Db, rowcount}
use local_transcription_serv.Store.Queries.{
  has_status, select, created_le, from_rows, list_by_status, count_by_status,
}

pub All-take {ℓ κ} :
    {A : Type ℓ} (P : A → Type κ) (n : ℕ) (xs : List A) → All P xs → All P (take n xs)
All-take P zero xs h = tt
All-take P (suc n) [] h = tt
All-take P (suc n) (x ∷ xs) h = (h.0, All-take P n xs h.1)

abbrev pub smaller : ℕ → ℕ → ℕ
smaller m n = if leb m n then m else n

length-take {ℓ} : {A : Type ℓ} (n : ℕ) (xs : List A) → length (take n xs) ≡ smaller n (length xs)
length-take zero xs = ground arith
length-take (suc n) [] = ground arith
length-take (suc n) (x ∷ xs) = ground (arith, length-take n xs)

length-eq-sum_of {ℓ} :
    {A : Type ℓ} (le : A → A → Bool) (xs : List A) → length xs ≡ sum_of le (λ a. 1) xs
length-eq-sum_of le [] = refl
length-eq-sum_of le (x ∷ xs) = omega (arith, length-eq-sum_of le xs)

length-sorted {ℓ} :
    {A : Type ℓ} (le : A → A → Bool) (xs : List A) → length (sorted le xs) ≡ length xs
length-sorted le xs =
    length-eq-sum_of le (sorted le xs) ∙ sum_of-sorted le (λ a. 1) xs ∙ sym (length-eq-sum_of le xs)

length-select : (test : Row → Bool) (db : Db) → length (select test db) ≡ rowcount test db
unfolding select rowcount
length-select test [] = refl
length-select test (r ∷ db) = ground (arith, length-select test db)

pub All-select : (test : Row → Bool) (db : Db) → All (λ r. test r ≡ true) (select test db)
unfolding select
All-select test [] = tt
All-select test (r ∷ db) = elim (Bool-cases (test r)) [
  | inl e ↦ rw e (e, All-select test db)
  | inr e ↦ rw e (All-select test db)
]

module _ (c : Calendar) (s : JobStatus) where
  -- As many jobs as there are rows, all with the status; or a row does not parse.
  abbrev Reads : List Row → Option (List Job) → Type 0
  Reads rows none = Unit {0}
  Reads rows (some jobs) =
      (length jobs ≡ length rows)
      × All (λ (j : Job). text_eq (value j.status) (value s) ≡ true) jobs

  from_row-status : (r : Row) {j : Job} → from_row c r ≡ some j → j.status ≡ r.status
  unfolding from_row
  from_row-status r h = ground arith

  from_rows-Reads :
      (rows : List Row) → All (λ r. has_status s r ≡ true) rows → Reads rows (from_rows c rows)
  unfolding from_rows
  from_rows-Reads [] k = (refl, tt)
  from_rows-Reads (r ∷ rows) k = elim (Option-cases (from_row c r)) [
    | inl e ↦ rw (e, from_rows) tt
    | inr (j, e) ↦ elim (Option-cases (from_rows c rows)) [
      | inl f ↦ rw (e, f, from_rows) tt
      | inr (jobs, f) ↦
          (let (same, all) : Reads rows (some jobs) =
              subst (Reads rows) f (from_rows-Reads rows k.1) in
            rw (e, f, from_rows) (ap suc same, (rw (from_row-status r {j = j} e) k.0, all)))
    ]
  ]

-- If all rows that it reads parse, `list_by_status` returns only jobs of that status, and as many as
-- `count_by_status` counts or as the limit allows, whichever is smaller.
pub list_by_status-length :
    (c : Calendar) (s : JobStatus) (limit : ℕ) (db : Db) {jobs : List Job}
    → list_by_status c s limit db ≡ some jobs
    → (length jobs ≡ smaller limit (count_by_status s db))
      × All (λ (j : Job). text_eq (value j.status) (value s) ≡ true) jobs
unfolding list_by_status count_by_status
list_by_status-length c s limit db {jobs} h =
    let rows = sorted created_le (select (has_status s) db) in
    let (same, all) : Reads c s (take limit rows) (some jobs) =
      subst (Reads c s (take limit rows)) h (
        from_rows-Reads c s (take limit rows)
          (All-take _ limit rows (All-sorted created_le _ _ (All-select (has_status s) db)))) in
    (
      same
          ∙ length-take limit rows
          ∙ ap (smaller limit) (
              length-sorted created_le (select (has_status s) db)
              ∙ length-select (has_status s) db),
      all,
    )
