-- ===== src/Config/Valid.antt =====
-- The bounds of loaded settings: src/local_transcription_service/config.py.
use Prim.Native.String.{count}
use local_transcription_serv.Prelude.{
  ℤ, pos, negsuc, ℕ, ◌≤◌, true, some, ◌≡◌, ◌≢◌, ◌⊎◌, inl, inr, refl, text_eq, text_eq_iff,
  Bool-cases, arith,
}
use local_transcription_serv.Config.{
  Settings, Parser, Environ, in_range, is_engine, has_api_key, is_accepted, get_settings,
}

pub record IsValid (s : Settings) : Type 0 where
  pub token : 16 ≤ count s.auth_token
  pub workers : ℕ
  pub worker_count : s.worker_count ≡ pos workers
  pub some_worker : 1 ≤ workers
  pub few_workers : workers ≤ 64
  pub engine : (s.stt_engine ≡ "mock") ⊎ ((s.stt_engine ≡ "openai") × (s.stt_api_key ≢ ""))

in_range_bounds :
    (low high : ℕ) (z : ℤ)
    → in_range low high z ≡ true
    → (n : ℕ) × (z ≡ pos n) × (low ≤ n) × (n ≤ high)
in_range_bounds low high (pos n) h = (n, refl, ground arith, ground arith)
in_range_bounds low high (negsuc n) h = cc

engine_cases :
    (s : Settings)
    → is_engine s.stt_engine ≡ true
    → has_api_key s ≡ true
    → (s.stt_engine ≡ "mock") ⊎ ((s.stt_engine ≡ "openai") × (s.stt_api_key ≢ ""))
engine_cases s known keyed = elim (Bool-cases (text_eq s.stt_engine "openai")) [
  | inl e ↦ elim (Bool-cases (text_eq s.stt_api_key "")) [
    | inl k ↦ ground arith
    | inr k ↦ inr (
      (text_eq_iff s.stt_engine "openai").0 e,
      λ empty. ground (arith, text_eq_iff s.stt_api_key ""),
    )
  ]
  | inr e ↦ elim (Bool-cases (text_eq s.stt_engine "mock")) [
    | inl k ↦ inl ((text_eq_iff s.stt_engine "mock").0 k)
    | inr k ↦ ground arith
  ]
]

is_accepted-IsValid : (s : Settings) → is_accepted s ≡ true → IsValid s
unfolding is_accepted
is_accepted-IsValid s h =
    let (workers, count, some_worker, few_workers) =
      in_range_bounds 1 64 s.worker_count (ground arith) in
    record {
      token = ground arith;
      workers = workers;
      worker_count = count;
      some_worker = some_worker;
      few_workers = few_workers;
      engine = engine_cases s (ground arith) (ground arith);
    }

-- Settings that load have a token of at least 16 characters, between 1 and 64 workers and one of the
-- two engines, and the gateway's engine has a key that is not empty.
pub get_settings-IsValid :
    (p : Parser) (env : Environ) {s : Settings} → get_settings p env ≡ some s → IsValid s
unfolding get_settings
get_settings-IsValid p env {s} h = is_accepted-IsValid s (ground arith)
