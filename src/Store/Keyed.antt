-- ===== src/Store/Keyed.antt =====
-- What an UPDATE of one job does to each job, seen through its key.
use mathlib.Core.Option
use local_transcription_serv.Prelude.{
  String, Bool, true, false, none, some, [], ◌∷◌, ◌&&◌, ◌≡◌, refl, ◌∙◌, ◌⊎◌, Option-cases, text_eq,
  text_eq_iff, text_eq_self, arith, if◌then◌else◌, Bool-cases, inl, inr,
}
use local_transcription_serv.Models.{Row}
use local_transcription_serv.Store.Table.{Db, find_row, update_rows, rowcount}
use local_transcription_serv.Store.Transitions.{keyed, update_one}

-- No two rows share a key.
abbrev pub UniqueIds : Db → Type 0
UniqueIds [] = Unit {0}
UniqueIds (r ∷ db) = (find_row r.job_id db ≡ none) × UniqueIds db

-- A SET clause without the key.
abbrev pub KeepsId : (Row → Row) → Type 0
KeepsId change = (r : Row) → (change r).job_id ≡ r.job_id

pub find_row-job_id : (id : String) (db : Db) {r : Row} → find_row id db ≡ some r → r.job_id ≡ id
unfolding find_row
find_row-job_id id [] h = ground arith
find_row-job_id id (s ∷ db) {r} h =
    ground (arith, text_eq_iff s.job_id id, find_row-job_id id db {r = r})

module _ (test : Row → Bool) (change : Row → Row) where
  -- What the statement makes of one row.
  abbrev pub updated : Row → Row
  updated r = if test r then change r else r

  updated-job_id : KeepsId change → (r : Row) → (updated r).job_id ≡ r.job_id
  updated-job_id keeps r = elim (Bool-cases (test r)) [ inl e ↦ rw e (keeps r) | inr e ↦ rw e ]

  -- An UPDATE acts on the job under each key alone.
  pub find_row-update_rows :
      KeepsId change
      → (id : String) (db : Db)
      → find_row id (update_rows test change db) ≡ Option.map updated (find_row id db)
  unfolding find_row update_rows
  find_row-update_rows keeps id [] = refl
  find_row-update_rows keeps id (r ∷ db) =
      simp (updated-job_id keeps r, find_row-update_rows keeps id db)
        (elim (Bool-cases (text_eq r.job_id id)) [ inl f ↦ simp f | inr f ↦ simp f ])

  pub update_rows-UniqueIds :
      KeepsId change → (db : Db) → UniqueIds db → UniqueIds (update_rows test change db)
  unfolding update_rows
  update_rows-UniqueIds keeps [] u = tt
  update_rows-UniqueIds keeps (r ∷ db) u = (
    simp (updated-job_id keeps r, find_row-update_rows keeps r.job_id db, u.0),
    update_rows-UniqueIds keeps db u.1,
  )

module _ (id : String) (guard : Row → Bool) where
  rowcount-keyed_absent : (db : Db) → find_row id db ≡ none → rowcount (keyed id guard) db ≡ 0
  unfolding rowcount find_row
  rowcount-keyed_absent [] h = refl
  rowcount-keyed_absent (r ∷ db) h = ground (arith, rowcount-keyed_absent db)

  -- The rowcount tells whether the job is there and passes the guard.
  pub rowcount-keyed :
      (db : Db)
      → UniqueIds db
      → rowcount (keyed id guard) db
        ≡ elim (find_row id db) [ none ↦ 0 | some r ↦ if guard r then 1 else 0 ]
  unfolding rowcount find_row
  rowcount-keyed [] u = refl
  rowcount-keyed (r ∷ db) u =
      ground (arith, rowcount-keyed db u.1, rowcount-keyed_absent db, text_eq_iff r.job_id id)

module _ (id : String) (guard : Row → Bool) (change : Row → Row) where
  -- A refused statement writes nothing.
  pub update_one_refused :
      (db : Db) → (update_one id guard change db).1 ≡ false → (update_one id guard change db).0 ≡ db
  unfolding update_one update_rows rowcount
  update_one_refused [] h = refl
  update_one_refused (r ∷ db) h = ground (arith, update_one_refused db)

  -- The statement on each key, and its result, by the job that it names.
  pub find_row-update_one :
      KeepsId change
      → (j : String) (db : Db)
      → find_row j (update_one id guard change db).0
        ≡ Option.map (λ r. if text_eq j id && guard r then change r else r) (find_row j db)
  unfolding update_one
  find_row-update_one keeps j db =
      find_row-update_rows (keyed id guard) change keeps j db
      ∙ by_key (Option-cases (find_row j db))
    where
      by_key :
          (find_row j db ≡ none) ⊎ ((r : Row) × (find_row j db ≡ some r))
          → Option.map (updated (keyed id guard) change) (find_row j db)
            ≡ Option.map (λ r. if text_eq j id && guard r then change r else r) (find_row j db)
      by_key (inl e) = simp e
      by_key (inr (r, e)) = simp (e, find_row-job_id j db e)

  pub update_one-succeeds :
      (db : Db)
      → UniqueIds db
      → (update_one id guard change db).1
        ≡ elim (find_row id db) [ none ↦ false | some r ↦ guard r ]
  unfolding update_one
  update_one-succeeds db u = ground (arith, rowcount-keyed id guard db u)

  -- The job does not pass the guard.
  pub update_one-refuses :
      (db : Db) {r : Row}
      → UniqueIds db
      → find_row id db ≡ some r
      → guard r ≡ false
      → update_one id guard change db ≡ (db, false)
  update_one-refuses db u e h =
      let refused : (update_one id guard change db).1 ≡ false =
        update_one-succeeds db u ∙ simp (e, h) in
      λ i. (update_one_refused db refused i, refused i)

  -- The job passes the guard: it is changed, and no other job is.
  pub update_one-accepts :
      KeepsId change
      → (db : Db) {r : Row} → UniqueIds db
      → find_row id db ≡ some r
      → guard r ≡ true
      → ((update_one id guard change db).1 ≡ true)
        × (find_row id (update_one id guard change db).0 ≡ some (change r))
  update_one-accepts keeps db {r} u e h = (
    update_one-succeeds db u ∙ simp (e, h),
    find_row-update_one keeps id db ∙ simp (e, h, text_eq_self id),
  )
