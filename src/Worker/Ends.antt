-- ===== src/Worker/Ends.antt =====
-- When the job of a worker comes to an end: `_claim_loop` and `process_one` of
-- src/local_transcription_service/worker.py on a table with one job.
use local_transcription_serv.Prelude.{
  ℕ, ◌+◌, ◌≤◌, ◌<◌, String, true, some, List, [], ◌∷◌, ◌≡◌, ◌⊎◌, inl, inr, refl, sym, ap, ◌∙◌,
  subst, length, All, arith,
}
use local_transcription_serv.Models.{
  Calendar, IsLawful, Job, Row, at_utc, iso_text, microseconds, to_row,
}
use local_transcription_serv.Models.Status.{is_terminal}
use local_transcription_serv.Store.Table.{Db, find_row}
use local_transcription_serv.Store.Keyed.{UniqueIds}
use local_transcription_serv.Store.Claim.{first_eligible}
use local_transcription_serv.Store.History.{run}
use local_transcription_serv.Store.Lifecycle.{Follows, run-Survives}
use local_transcription_serv.Worker.{WorkerSettings, World, Surroundings, process_one}
use local_transcription_serv.Worker.Keeps.{process_one_keeps}
use local_transcription_serv.Worker.Commits.{process_one-Reaches}
use local_transcription_serv.Worker.Settles.{
  Verdict, delivers, retries, gives_up, breaks, Settled, verdict,
}
use local_transcription_serv.Worker.Iteration.{held, held_row, process_one_settles}
use local_transcription_serv.Worker.Loops.{claim_loop}
use local_transcription_serv.Worker.Alone.{
  length-apply, alone, Undisturbed, Spaced, Waits, deferred, deferred-row, first_eligible-alone,
  verdict-retries, verdict-breaks,
}

-- The job of the table is terminal.
abbrev pub Ended : String → Db → Type 0
Ended id db = (r : Row) × (find_row id db ≡ some r) × (is_terminal r.status ≡ true)

module _ (c : Calendar) (s : WorkerSettings) where
  -- One round: the job has ended, or waits for another attempt.
  round :
      IsLawful c
      → (e : Surroundings) (j : Job) (w : World) (t : ℕ) → Undisturbed e
      → w.db ≡ to_row c j ∷ []
      → Waits t j
      → t ≤ e.clock 0
      → let w' = (process_one c s e w).1 in
        Ended j.job_id w'.db
        ⊎ ((w'.db ≡ to_row c (deferred c s e j) ∷ []) × (j.attempt + 1 < s.max_attempts))
  unfolding to_row find_row
  round L e j w t u only waits due =
      by_verdict (verdict c s e (held c s e j) (held_row c s e j)) refl (
        process_one_settles c s e L u.quiet u.served j w (subst UniqueIds (sym only) (refl, tt)) (
          ap (first_eligible (iso_text c (at_utc (e.clock 0)))) only
          ∙ first_eligible-alone c s L j t (e.clock 0) waits due))
    where
      one : length (process_one c s e w).1.db ≡ 1
      one =
          process_one_keeps c s e (λ (x : Db). length x ≡ 1)
            (λ k db p. ap (λ (x : Db). length x) (u.quiet k db) ∙ p)
            (λ op db h p. length-apply c 1 op db h p) w (ap (λ (x : Db). length x) only)

      by_verdict :
          (v : Verdict)
          → verdict c s e (held c s e j) (held_row c s e j) ≡ v
          → Settled c s e (held c s e j) (held_row c s e j) w (process_one c s e w) v
          → Ended j.job_id (process_one c s e w).1.db
            ⊎ (((process_one c s e w).1.db ≡ to_row c (deferred c s e j) ∷ [])
                × (j.attempt + 1 < s.max_attempts))
      by_verdict (delivers text) v h = inl (_, h.1, refl)
      by_verdict (gives_up k error q) v h = inl (_, h.1, refl)
      by_verdict (breaks left) v h = absurd (verdict-breaks c s e j left u v)
      by_verdict retries v h = inr (
        alone j.job_id (process_one c s e w).1.db _ one h.1
            ∙ ap (λ (r : Row). r ∷ []) (deferred-row c s e j),
        verdict-retries c s e j v,
      )

  is_terminal-Follows :
      (r r' : Row) → Follows r r' → is_terminal r.status ≡ true → is_terminal r'.status ≡ true
  is_terminal-Follows r r' f over =
      let same : r'.status ≡ r.status = rw over at (f.terminal) in ap is_terminal same ∙ over

  -- A job that has ended stays so.
  claim_loop-Ended :
      (rounds : List Surroundings) (w : World) (id : String)
      → All Undisturbed rounds
      → Ended id w.db
      → Ended id (claim_loop c s rounds w).0.db
  unfolding claim_loop run
  claim_loop-Ended [] w id h p = p
  claim_loop-Ended (e ∷ rounds) w id h (r, there, over) =
      let p = process_one-Reaches c s e (λ k. []) h.0.quiet w in
      let (r', found, follows) = run-Survives c id p.history w.db r there in
      claim_loop-Ended rounds (process_one c s e w).1 id h.1
        (r', ap (find_row id) p.committed ∙ found, is_terminal-Follows r r' follows over)

-- With a lawful calendar, take a job that waits alone in the table, with no more attempts than the
-- limit and with a retry time, if any, that has come when the first round begins. After a claim loop
-- of more rounds than the job has attempts left it is done or failed, whatever the pipeline
-- answers, if each round begins when the backoff of the round before is over, nobody else writes
-- meanwhile, the database refuses no statement and the result file can be written.
pub claim_loop_ends :
    (c : Calendar) (s : WorkerSettings)
    → IsLawful c
    → (rounds : List Surroundings) (j : Job) (w : World) (t : ℕ) → All Undisturbed rounds
    → Spaced s t rounds
    → w.db ≡ to_row c j ∷ []
    → Waits t j
    → j.attempt ≤ s.max_attempts
    → s.max_attempts < j.attempt + length rounds
    → Ended j.job_id (claim_loop c s rounds w).0.db
unfolding claim_loop
claim_loop_ends c s L [] j w t h spaced only waits within enough = absurd (omega arith)
claim_loop_ends c s L (e ∷ rounds) j w t h spaced only waits within enough =
    elim (round c s L e j w t h.0 only waits spaced.0) [
      | inl ended ↦ claim_loop-Ended c s rounds (process_one c s e w).1 j.job_id h.1 ended
      | inr (again, more) ↦
          claim_loop_ends c s L rounds (deferred c s e j) (process_one c s e w).1
            (e.clock 3 + microseconds s.retry_backoff_seconds) h.1 spaced.1 again
            (refl, (_, refl, omega arith)) (omega arith) (omega arith)
    ]
