-- ===== src/Metrics.antt =====
-- The error-rate counter: src/local_transcription_service/metrics.py.
-- The counter is its dict. The lock, which the code never takes, and the log call are not modelled:
-- a tick's log line is the dict that it carries.
pub mod Ticks
use local_transcription_serv.Prelude.{ℕ, ◌+◌, String, Bool, List, [], ◌∷◌, text_eq, if◌then◌else◌}

-- `_counts`, in the order of insertion
abbrev pub Counts : Type 0
Counts = List (String × ℕ)

-- `self._counts.get(code, 0)`
unfoldable pub count_of : String → Counts → ℕ
count_of code [] = 0
count_of code ((k, n) ∷ counts) = if text_eq k code then n else count_of code counts

-- `self._counts[code] = …`
unfoldable pub set_count : String → ℕ → Counts → Counts
set_count code n [] = (code, n) ∷ []
set_count code n ((k, m) ∷ counts) =
    if text_eq k code then (k, n) ∷ counts else (k, m) ∷ set_count code n counts

unfoldable pub increment : String → Counts → Counts
increment code counts = set_count code (count_of code counts + 1) counts

-- `tick`: the snapshot, and the counter afterwards.
unfoldable pub tick : Counts → Counts × Counts
tick counts = (counts, [])

unfoldable pub reset : Counts → Counts
reset counts = []

-- What happens to the counter while `run_error_rate_loop` waits: a failure is counted, the wait
-- times out, or the stop event fires.
pub data Event : Type 0 where
  failure : String → Event
  timeout : Event
  stop : Event

-- `run_error_rate_loop`: the ticks that it logs, and the counter when it is left.
unfoldable pub run_error_rate_loop : List Event → Counts → List Counts × Counts
run_error_rate_loop [] counts = ([], counts)
run_error_rate_loop (failure code ∷ events) counts =
    run_error_rate_loop events (increment code counts)
run_error_rate_loop (timeout ∷ events) counts =
    let (snapshot, counts') = tick counts in
    let (ticks, last) = run_error_rate_loop events counts' in (snapshot ∷ ticks, last)
run_error_rate_loop (stop ∷ events) counts = ([], counts)
