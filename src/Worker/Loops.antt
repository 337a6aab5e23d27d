-- ===== src/Worker/Loops.antt =====
-- The loops of src/local_transcription_service/worker.py. A loop is the list of its rounds up to the
-- one that finds `stop()` called; between the rounds it waits, and changes nothing.
use local_transcription_serv.Prelude.{
  ℕ, zero, suc, ◌+◌, Bool, true, false, List, [], ◌∷◌, ◌++◌, if◌then◌else◌,
}
use local_transcription_serv.Models.{Calendar}
use local_transcription_serv.Store.Table.{Db}
use local_transcription_serv.Store.Transitions.{reclaim_expired}
use local_transcription_serv.Worker.{
  WorkerSettings, World, Surroundings, Outcome, processed, process_one,
}

-- Whether the claim loop waits after a round: on an empty queue and after an exception.
abbrev pub waits : Outcome → Bool
waits processed = false
waits _ = true

-- One round of the reclaim loop: what the others commit before it, the clock, and whether the
-- UPDATE raises, which the loop only logs.
pub record Round : Type 0 where
  pub others : Db → Db
  pub now : ℕ
  pub raises : Bool

-- The tasks that `run_forever` starts.
pub data Task : Type 0 where
  claim_loops : (worker : ℕ) → Task
  reclaim_loops : Task
  error_rate_loops : Task

module _ (c : Calendar) where
  -- `reclaim_once`
  unfoldable pub reclaim_once : ℕ → Db → Db × ℕ
  reclaim_once now db = reclaim_expired c now db

  -- `_reclaim_loop`
  unfoldable pub reclaim_loop : List Round → Db → Db
  reclaim_loop [] db = db
  reclaim_loop (r ∷ rounds) db =
      reclaim_loop rounds (if r.raises then r.others db else (reclaim_once r.now (r.others db)).0)

  -- `_claim_loop`: the world afterwards, and after which rounds it has waited.
  unfoldable pub claim_loop : WorkerSettings → List Surroundings → World → World × List Bool
  claim_loop s [] w = (w, [])
  claim_loop s (e ∷ rounds) w =
      let (outcome, next) = process_one c s e w in
      let (last, pauses) = claim_loop s rounds next in (last, waits outcome ∷ pauses)

-- `range(self._worker_count)`, from a number on
abbrev workers_from : ℕ → ℕ → List Task
workers_from i zero = []
workers_from i (suc n) = claim_loops i ∷ workers_from (i + 1) n

-- `run_forever`: the tasks that it starts, and cancels once `stop()` is called.
unfoldable pub tasks : ℕ → Bool → List Task
tasks worker_count has_counter =
    workers_from 0 worker_count
    ++ (reclaim_loops ∷ (if has_counter then error_rate_loops ∷ [] else []))
