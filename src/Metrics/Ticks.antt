-- ===== src/Metrics/Ticks.antt =====
-- What `run_error_rate_loop` of src/local_transcription_service/metrics.py counts.
use local_transcription_serv.Prelude.{
  ℕ, suc, ◌+◌, String, List, [], ◌∷◌, ◌≡◌, refl, text_eq, text_eq_iff, if◌then◌else◌, arith,
}
use local_transcription_serv.Metrics.{
  Counts, count_of, set_count, increment, tick, Event, failure, timeout, stop, run_error_rate_loop,
}

-- The failures with one code up to the stop event.
abbrev pub failures : String → List Event → ℕ
failures code [] = 0
failures code (failure k ∷ events) =
    if text_eq k code then suc (failures code events) else failures code events
failures code (timeout ∷ events) = failures code events
failures code (stop ∷ events) = 0

abbrev pub ticked : String → List Counts → ℕ
ticked code [] = 0
ticked code (counts ∷ ticks) = count_of code counts + ticked code ticks

count_of-set_count :
    (code k : String) (n : ℕ) (counts : Counts)
    → count_of code (set_count k n counts) ≡ (if text_eq k code then n else count_of code counts)
unfolding count_of set_count
count_of-set_count code k n [] = refl
count_of-set_count code k n ((j, m) ∷ counts) = ground (
  arith,
  text_eq_iff j k,
  text_eq_iff k code,
  text_eq_iff j code,
  count_of-set_count code k n counts,
)

count_of-increment :
    (code k : String) (counts : Counts)
    → count_of code (increment k counts)
      ≡ (if text_eq k code then suc (count_of code counts) else count_of code counts)
unfolding increment
count_of-increment code k counts =
    ground (arith, count_of-set_count code k (count_of k counts + 1) counts, text_eq_iff k code)

-- For every code, the counts of all ticks that the loop logs and the count that is left in the
-- counter add up to the count at the start and the failures with that code until the stop.
pub run_error_rate_loop-accounts :
    (code : String) (events : List Event) (counts : Counts)
    → let (ticks, last) = run_error_rate_loop events counts in
      ticked code ticks + count_of code last ≡ count_of code counts + failures code events
unfolding run_error_rate_loop tick count_of
run_error_rate_loop-accounts code [] counts = omega arith
run_error_rate_loop-accounts code (failure k ∷ events) counts = ground (
  arith,
  count_of-increment code k counts,
  run_error_rate_loop-accounts code events (increment k counts),
)
run_error_rate_loop-accounts code (timeout ∷ events) counts =
    ground (arith, run_error_rate_loop-accounts code events [])
run_error_rate_loop-accounts code (stop ∷ events) counts = omega arith
