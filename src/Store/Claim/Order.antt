-- ===== src/Store/Claim/Order.antt =====
-- Which job `claim` takes, in terms of times instead of texts.
use local_transcription_serv.Prelude.{
  ℕ, String, true, false, Option, none, some, [], ◌∷◌, not, ◌≡◌, is_some, implies, All, All-mono,
  arith, Bool-cases, Option-cases, inl, inr, subst,
}
use local_transcription_serv.Models.{Calendar, IsLawful, Row, at_utc, iso_text}
use local_transcription_serv.Store.Table.{Db}
use local_transcription_serv.Store.Claim.Rank.{
  lex_lt_irrefl, lex_lt_asym, lex_lt_trans, instant, IsStamped, rank_lt, claimable,
  precedes-rank_lt, eligible-claimable,
}
use local_transcription_serv.Store.Claim.{eligible, due, precedes, first_eligible}

pub first_eligible_cases {ℓ} :
    (P : Option Row → Type ℓ) (now : String) (s : Row) (db : Db)
    → (eligible now s ≡ false → P (first_eligible now db))
    → (eligible now s ≡ true → first_eligible now db ≡ none → P (some s))
    → ((t : Row)
        → eligible now s ≡ true
        → first_eligible now db ≡ some t
        → precedes t s ≡ true
        → P (some t))
    → ((t : Row)
        → eligible now s ≡ true
        → first_eligible now db ≡ some t
        → precedes t s ≡ false
        → P (some s))
    → P (first_eligible now (s ∷ db))
unfolding first_eligible
first_eligible_cases P now s db skip alone later first = elim (Bool-cases (eligible now s)) [
  | inr f ↦ rw (f, first_eligible) (skip f)
  | inl f ↦ elim (Option-cases (first_eligible now db)) [
    | inl e ↦ rw (f, e, first_eligible) (alone f e)
    | inr (t, e) ↦ elim (Bool-cases (precedes t s)) [
      | inl p ↦ rw (f, e, p, first_eligible) (later t f e p)
      | inr p ↦ rw (f, e, p, first_eligible) (first t f e p)
    ]
  ]
]

module _ (c : Calendar) where
  -- No claimable job comes before the one that is taken.
  abbrev pub IsFirst : ℕ → Row → Db → Type 0
  IsFirst now r = All (λ s. implies (claimable c now s) (not (rank_lt c s r)) ≡ true)

  -- What the subquery may return: nothing if no job is claimable, else a first claimable job.
  abbrev pub Chosen : ℕ → Db → Option Row → Type 0
  Chosen now db none = All (λ s. claimable c now s ≡ false) db
  Chosen now db (some r) = IsStamped c r × (claimable c now r ≡ true) × IsFirst now r db

  IsFirst-none : (now : ℕ) (db : Db) (r : Row) → Chosen now db none → IsFirst now r db
  IsFirst-none now db r = All-mono _ _ db (λ t h. ground arith)

  IsFirst-earlier :
      (now : ℕ) (db : Db) (r s : Row) → rank_lt c r s ≡ false → IsFirst now r db → IsFirst now s db
  IsFirst-earlier now db r s e = All-mono _ _ db (λ t h. ground (
    arith,
    lex_lt_trans (is_some s.next_retry_at) (is_some r.next_retry_at) (is_some t.next_retry_at)
        (instant c (due s)) (instant c s.created_at) (instant c (due r)) (instant c r.created_at)
        (instant c (due t)) (instant c t.created_at),
  ))

  Chosen-skip :
      (now : ℕ) (s : Row) (db : Db) (o : Option Row)
      → claimable c now s ≡ false
      → Chosen now db o
      → Chosen now (s ∷ db) o
  Chosen-skip now s db none f k = (f, k)
  Chosen-skip now s db (some r) f (k, l, m) = (k, l, (ground arith, m))

module _ (c : Calendar) (L : IsLawful c) where
  Chosen-cons :
      (now : ℕ) (s : Row) (db : Db)
      → IsStamped c s
      → Chosen c now db (first_eligible (iso_text c (at_utc now)) db)
      → Chosen c now (s ∷ db) (first_eligible (iso_text c (at_utc now)) (s ∷ db))
  Chosen-cons now s db h rest =
      first_eligible_cases (Chosen c now (s ∷ db)) (iso_text c (at_utc now)) s db
        (λ f. Chosen-skip c now s db _ (rw (← eligible-claimable c L s now h) f) rest)
        (λ f e. (
          h,
          rw (← eligible-claimable c L s now h) f,
          (self, IsFirst-none c now db s (subst (Chosen c now db) e rest)),
        ))
        (λ t f e p.
          let (stamped, ready, first) = subst (Chosen c now db) e rest in
          (stamped, ready, (after t s (rw (← precedes-rank_lt c L t s stamped h) p), first)))
        (λ t f e p.
          let (stamped, ready, first) = subst (Chosen c now db) e rest in
          (
            h,
            rw (← eligible-claimable c L s now h) f,
            (
              self,
              IsFirst-earlier c now db t s (rw (← precedes-rank_lt c L t s stamped h) p) first,
            ),
          ))
    where
      self : implies (claimable c now s) (not (rank_lt c s s)) ≡ true
      self = ground (
        arith,
        lex_lt_irrefl (is_some s.next_retry_at) (instant c (due s)) (instant c s.created_at),
      )

      after :
          (t s : Row)
          → rank_lt c t s ≡ true
          → implies (claimable c now s) (not (rank_lt c s t)) ≡ true
      after t s e = ground (
        arith,
        lex_lt_asym (is_some t.next_retry_at) (is_some s.next_retry_at) (instant c (due t))
            (instant c t.created_at) (instant c (due s)) (instant c s.created_at),
      )

  -- `claim` takes a job that waits and whose retry time has come, none such comes before it, and
  -- it takes none only if there is none.
  pub first_eligible-Chosen :
      (now : ℕ) (db : Db)
      → All (IsStamped c) db
      → Chosen c now db (first_eligible (iso_text c (at_utc now)) db)
  unfolding first_eligible
  first_eligible-Chosen now [] h = tt
  first_eligible-Chosen now (s ∷ db) h = Chosen-cons now s db h.0 (first_eligible-Chosen now db h.1)
