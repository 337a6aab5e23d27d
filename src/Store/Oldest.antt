-- ===== src/Store/Oldest.antt =====
-- The order of `list_by_status` of src/local_transcription_service/queue/store.py: ORDER BY
-- created_at, in terms of times instead of texts, and LIMIT.
use local_transcription_serv.Prelude.{
  ℕ, zero, suc, Bool, true, some, List, [], ◌∷◌, ◌||◌, ◌≡◌, refl, ◌∙◌, map, length, take, any,
  every, All, All-map, All-mono, All-sorted, sorted, sorted-All, sorted-agree, sorted-IsSorted,
  IsSorted, leb, implies, text_eq, text_eq_self, text_lt, arith, Bool-cases, inl, inr,
}
use local_transcription_serv.Models.{Calendar, IsLawful, Job, Row}
use local_transcription_serv.Models.Status.{JobStatus, value}
use local_transcription_serv.Store.Table.{Db}
use local_transcription_serv.Store.Queries.{
  has_status, select, created_le, list_by_status, count_by_status,
}
use local_transcription_serv.Store.Claim.Rank.{instant, compare-stamps}
use local_transcription_serv.Store.History.{Op, run}
use local_transcription_serv.Store.Listing.{smaller, All-take, list_by_status-length}
use local_transcription_serv.Store.Readable.{
  IsReadable, job_of, from_rows-IsReadable, run-IsReadable,
}

module _ {ℓ} {A : Type ℓ} (le : A → A → Bool) where
  IsSorted-take : (n : ℕ) (xs : List A) → IsSorted le xs → IsSorted le (take n xs)
  IsSorted-take zero xs s = tt
  IsSorted-take (suc n) [] s = tt
  IsSorted-take (suc n) (x ∷ xs) s = (All-take _ n xs s.0, IsSorted-take n xs s.1)

  module _ (same : A → A → Bool) where
    -- A member that a cut leaves out comes after all that it keeps.
    cut-covers :
        ((x : A) → same x x ≡ true)
        → (n : ℕ) (xs : List A) → IsSorted le xs
        → All (λ x. (any (same x) (take n xs) || every (λ y. le y x) (take n xs)) ≡ true) xs
    cut-covers self zero xs s = all xs
      where
        all : (ys : List A) → All (λ x. true ≡ true) ys
        all [] = tt
        all (y ∷ ys) = (refl, all ys)
    cut-covers self (suc n) [] s = tt
    cut-covers self (suc n) (x ∷ xs) s = (rw (self x) refl, join xs s.0 (cut-covers self n xs s.1))
      where
        join :
            (ys : List A)
            → All (λ y. le x y ≡ true) ys
            → All (λ y. (any (same y) (take n xs) || every (λ z. le z y) (take n xs)) ≡ true) ys
            → All
                (λ y. (any (same y) (x ∷ take n xs) || every (λ z. le z y) (x ∷ take n xs)) ≡ true)
                ys
        join [] h k = tt
        join (y ∷ ys) h k = (ground arith, join ys h.1 k.1)

module _ {ℓ κ} {A : Type ℓ} {B : Type κ} (f : A → B) where
  IsSorted-map :
      (le : B → B → Bool) (xs : List A)
      → IsSorted (λ x y. le (f x) (f y)) xs
      → IsSorted le (map f xs)
  IsSorted-map le [] s = tt
  IsSorted-map le (x ∷ xs) s = (All-map _ f xs s.0, IsSorted-map le xs s.1)

  any-map : (test : B → Bool) (xs : List A) → any test (map f xs) ≡ any (λ x. test (f x)) xs
  any-map test [] = refl
  any-map test (x ∷ xs) = rw (any-map test xs) refl

  every-map : (test : B → Bool) (xs : List A) → every test (map f xs) ≡ every (λ x. test (f x)) xs
  every-map test [] = refl
  every-map test (x ∷ xs) = rw (every-map test xs) refl

select-All :
    (test good : Row → Bool) (db : Db)
    → All (λ r. good r ≡ true) (select test db)
    → All (λ r. implies (test r) (good r) ≡ true) db
unfolding select
select-All test good [] h = tt
select-All test good (r ∷ db) h = elim (Bool-cases (test r)) [
  | inl e ↦
      let k : (good r ≡ true) × All (λ q. good q ≡ true) (select test db) = rw (e, select) at h in
      (rw (e, k.0) refl, select-All test good db k.1)
  | inr e ↦
      let k : All (λ q. good q ≡ true) (select test db) = rw (e, select) at h in
      (rw e refl, select-All test good db k)
]

select-keeps {ℓ} :
    (P : Row → Type ℓ) (test : Row → Bool) (db : Db) → All P db → All P (select test db)
unfolding select
select-keeps P test [] h = tt
select-keeps P test (r ∷ db) h = elim (Bool-cases (test r)) [
  | inl e ↦ rw (e, select) (h.0, select-keeps P test db h.1)
  | inr e ↦ rw (e, select) (select-keeps P test db h.1)
]

abbrev pub older : Job → Job → Bool
older i j = leb i.created_at.clock j.created_at.clock

module _ (c : Calendar) where
  -- The row's job is listed, or all that are listed were submitted no later.
  abbrev pub is_covered : List Job → Row → Bool
  is_covered jobs r =
      any (λ (j : Job). text_eq r.job_id j.job_id) jobs
      || every (λ (j : Job). leb j.created_at.clock (instant c r.created_at)) jobs

  -- What a listing holds.
  pub record Lists (s : JobStatus) (limit : ℕ) (db : Db) (jobs : List Job) : Type 0 where
    pub counted : length jobs ≡ smaller limit (count_by_status s db)
    pub statuses : All (λ (j : Job). text_eq (value j.status) (value s) ≡ true) jobs
    pub ordered : IsSorted older jobs
    pub oldest : All (λ r. implies (has_status s r) (is_covered jobs r) ≡ true) db

  abbrev by_time : Row → Row → Bool
  by_time r s = leb (instant c r.created_at) (instant c s.created_at)

  by_time-IsSorted : (rows : List Row) → IsSorted by_time (sorted by_time rows)
  by_time-IsSorted = sorted-IsSorted by_time (λ x y h. ground arith) (λ x y z h k. ground arith)

  abbrev same_id : Row → Row → Bool
  same_id r q = text_eq r.job_id q.job_id

  is_covered-map :
      (r : Row) (rows : List Row)
      → is_covered (map (job_of c) rows) r ≡ (any (same_id r) rows || every (λ q. by_time q r) rows)
  is_covered-map r rows =
      rw
        (
          any-map (job_of c) (λ j. text_eq r.job_id j.job_id) rows,
          every-map (job_of c) (λ j. leb j.created_at.clock (instant c r.created_at)) rows,
        )
        refl

  module _ (L : IsLawful c) where
    created_le-by_time :
        (r s : Row) → IsReadable c r → IsReadable c s → created_le r s ≡ by_time r s
    unfolding text_lt
    created_le-by_time r s p q =
        simp (compare-stamps c L s.created_at r.created_at q.created p.created) (ground arith)

    module _ (s : JobStatus) (limit : ℕ) where
      abbrev chosen : Db → List Row
      chosen db = take limit (sorted by_time (select (has_status s) db))

      list_by_status-chosen :
          (db : Db)
          → All (IsReadable c) db
          → list_by_status c s limit db ≡ some (map (job_of c) (chosen db))
      unfolding list_by_status
      list_by_status-chosen db h =
          let k = select-keeps (IsReadable c) (has_status s) db h in
          rw
            (sorted-agree (IsReadable c) created_le by_time created_le-by_time
              (select (has_status s) db) k)
            (from_rows-IsReadable c L (chosen db)
              (All-take (IsReadable c) limit _ (All-sorted by_time (IsReadable c) _ k)))

      chosen-covers :
          (db : Db)
          → All
              (λ r. implies (has_status s r) (is_covered (map (job_of c) (chosen db)) r) ≡ true)
              db
      chosen-covers db = select-All (has_status s) (is_covered (map (job_of c) (chosen db))) db (
          sorted-All by_time _ (select (has_status s) db) (
            All-mono _ _ (sorted by_time (select (has_status s) db))
              (λ r e. is_covered-map r (chosen db) ∙ e)
              (cut-covers by_time same_id (λ r. text_eq_self r.job_id) limit _
                (by_time-IsSorted (select (has_status s) db)))))

      -- With a lawful calendar and after any history that began with no job, `list_by_status` raises
      -- nothing. It returns only jobs of that status, as many as `count_by_status` counts or as the
      -- limit allows, whichever is smaller, the job submitted first in front; and a job of that
      -- status that it leaves out was submitted no earlier than any that it returns.
      pub list_by_status-Lists :
          (ops : List Op)
          → (jobs : List Job) × (list_by_status c s limit (run c ops []) ≡ some jobs)
            × Lists s limit (run c ops []) jobs
      list_by_status-Lists ops =
          let db = run c ops [] in
          let eq = list_by_status-chosen db (run-IsReadable c L ops [] tt) in
          let (counted, statuses) = list_by_status-length c s limit db eq in
          (
            map (job_of c) (chosen db),
            eq,
            record {
              counted = counted;
              statuses = statuses;
              ordered =
                  IsSorted-map (job_of c) older (chosen db)
                    (IsSorted-take by_time limit _ (by_time-IsSorted (select (has_status s) db)));
              oldest = chosen-covers db;
            },
          )
