-- ===== src/App/Startup.antt =====
-- When the service starts: `main` of src/local_transcription_service/app.py.
use local_transcription_serv.Prelude.{
  String, Bool, true, false, not, ◌&&◌, ◌||◌, some, List, [], ◌∷◌, ◌≡◌, ◌↔◌, ◌⊎◌, refl, ap, sym,
  ◌∙◌, any, is_some, text_eq, text_eq_iff, Bool-cases, inl, inr, arith, if◌then◌else◌, ◌==◌,
}
use local_transcription_serv.Pipeline.{Result, ok}
use local_transcription_serv.Pipeline.Engine.{SttEngine}
use local_transcription_serv.Pipeline.Stages.{RealPipeline}
use local_transcription_serv.Stt.{is_ready}
use local_transcription_serv.Stt.Ready.{Lists, is_ready-Lists}
use local_transcription_serv.Stt.Engines.{mock_stt}
use local_transcription_serv.Stt.Connection.{litellm_whisper}
use local_transcription_serv.Config.{Settings, Environ, get_settings, dirs}
use local_transcription_serv.Config.Valid.{IsValid, get_settings-IsValid}
use local_transcription_serv.App.{
  Platform, Action, made_dir, opened_store, started_worker, awaited_worker, exited, litellm_stt,
  build_stt_engine, build_pipeline, startup_probe, run_service, run, start, after_dirs, main,
}

abbrev pub is_store : Action → Bool
is_store (opened_store path) = true
is_store _ = false

abbrev pub is_refusal : Action → Bool
is_refusal (exited code) = code == 78
is_refusal _ = false

abbrev pub is_started : Action → Bool
is_started (started_worker count) = true
is_started _ = false

abbrev pub is_awaited : Action → Bool
is_awaited awaited_worker = true
is_awaited _ = false

in_time : (timely b : Bool) → (if timely then b else false) ≡ (timely && b)
in_time true b = refl
in_time false b = refl

module _ (pl : Platform) where
  -- Whether all directories can be made.
  abbrev pub can_make : List String → Bool
  can_make [] = true
  can_make (d ∷ ds) = not (is_some (pl.mkdir d)) && can_make ds

  after_dirs_then :
      (P : Action → Bool)
      → ((d : String) → P (made_dir d) ≡ false)
      → (ds : List String) (rest : List Action × Result (Unit {0}))
      → any P (after_dirs pl ds rest).0 ≡ (can_make ds && any P rest.0)
  unfolding after_dirs
  after_dirs_then P h [] rest = refl
  after_dirs_then P h (d ∷ ds) rest = ground (arith, h d, after_dirs_then P h ds rest)

module _ (pl : Platform) (env : Environ) (s : Settings) where
  -- Whether the engine of the settings answers in time that it is ready.
  abbrev pub has_engine : Bool
  has_engine =
      let made = litellm_whisper pl.rstrip env s.stt_base_url s.stt_api_key s.stt_model in
      text_eq s.stt_engine "mock"
      || ((pl.gateway made.base_url made.api_key).timely
          && is_ready (pl.gateway made.base_url made.api_key) made.client)

  -- The settings choose the mock; or the gateway's engine, and the gateway answers in time, with no
  -- error status and a listing in which the model stands.
  abbrev pub HasEngine : Type 0
  HasEngine =
      let made = litellm_whisper pl.rstrip env s.stt_base_url s.stt_api_key s.stt_model in
      let gateway = pl.gateway made.base_url made.api_key in
      (s.stt_engine ≡ "mock")
      ⊎ ((gateway.timely ≡ true) × Lists gateway made.client.readiness_timeout_s made.client.model)

  has_engine_iff : (has_engine ≡ true) ↔ HasEngine
  has_engine_iff =
      let made = litellm_whisper pl.rstrip env s.stt_base_url s.stt_api_key s.stt_model in
      let gateway = pl.gateway made.base_url made.api_key in
      (
        λ h. elim (Bool-cases (text_eq s.stt_engine "mock")) [
          | inl e ↦ inl ((text_eq_iff s.stt_engine "mock").0 e)
          | inr e ↦ inr (ground arith, (is_ready-Lists gateway made.client).0 (ground arith))
        ],
        λ h. elim h [
          | inl mock ↦ (let e = (text_eq_iff s.stt_engine "mock").1 mock in ground arith)
          | inr (timely, lists) ↦
              (let ready = (is_ready-Lists gateway made.client).1 lists in ground arith)
        ],
      )

  build_stt_engine_total :
      IsValid s
      → (engine : SttEngine) × (build_stt_engine pl env s ≡ ok engine)
        × (startup_probe pl engine ≡ has_engine)
  unfolding build_stt_engine startup_probe mock_stt text_eq
  build_stt_engine_total v = elim v.engine [
    | inl mock ↦
        let e = (text_eq_iff s.stt_engine "mock").1 mock in
        (mock_stt pl.stem, rw (e, build_stt_engine) refl, rw e refl)
    | inr (openai, key) ↦
        let e = (text_eq_iff s.stt_engine "openai").1 openai in
        let n : text_eq s.stt_engine "mock" ≡ false = rw openai refl in
        (
          litellm_stt pl env s,
          rw (n, e, build_stt_engine) refl,
          rw n (in_time (litellm_stt pl env s).timely _),
        )
  ]

  -- What the actions of a start show, if the engine is ready or not.
  abbrev pub Shows : Bool → List Action → Type 0
  Shows ready actions =
      (any is_store actions ≡ ready)
      × (any is_refusal actions ≡ not ready)
      × (any is_started actions ≡ any is_awaited actions)

  run-Shows :
      (engine : SttEngine) (pipeline : RealPipeline) (ready : Bool)
      → startup_probe pl engine ≡ ready
      → Shows ready (run pl s engine pipeline).0
  unfolding run run_service
  run-Shows engine pipeline false probed = rw (probed, run) (refl, refl, refl)
  run-Shows engine pipeline true probed = rw (probed, run) (ground arith)

  start-Shows : IsValid s → Shows has_engine (start pl env s).0
  unfolding start
  start-Shows v =
      let (engine, built, probed) = build_stt_engine_total v in
      rw (built, start) (run-Shows engine (build_pipeline pl s engine) has_engine probed)

module _ (pl : Platform) (env : Environ) {s : Settings}
    (loaded : get_settings pl.parser env ≡ some s) where
  -- What the actions of `main` show, as equations between tests.
  main-Shows :
      let actions = (main pl env).0 in
      let made = can_make pl (dirs pl.parser s) in
      (any is_store actions ≡ (made && has_engine pl env s))
      × (any is_refusal actions ≡ (made && not (has_engine pl env s)))
      × (any is_started actions ≡ any is_awaited actions)
  unfolding main
  main-Shows =
      let (opens, refuses, awaits) =
        start-Shows pl env s (get_settings-IsValid pl.parser env loaded) in
      let ds = dirs pl.parser s in
      let rest = start pl env s in
      let starts = after_dirs_then pl is_started (λ d. refl) ds rest in
      let ends = after_dirs_then pl is_awaited (λ d. refl) ds rest in
      rw (loaded, main)
        (
          after_dirs_then pl is_store (λ d. refl) ds rest ∙ ap (◌&&◌ _) opens,
          after_dirs_then pl is_refusal (λ d. refl) ds rest ∙ ap (◌&&◌ _) refuses,
          starts ∙ ap (◌&&◌ _) awaits ∙ sym ends,
        )

  -- If the settings load, `main` opens the store exactly if all directories can be made and an engine
  -- is there: the mock; or the gateway's, and the gateway answers within five seconds, with no error
  -- status and a listing in which the model stands. It exits with 78 exactly if the directories can be
  -- made and no engine is there. Whenever it has started the worker, it also awaits its end.
  pub main_opens :
      let actions = (main pl env).0 in
      let made = can_make pl (dirs pl.parser s) in
      ((any is_store actions ≡ true) ↔ ((made ≡ true) × HasEngine pl env s))
      × ((any is_refusal actions ≡ true) ↔ ((made ≡ true) × ¬ HasEngine pl env s))
      × (any is_started actions ≡ any is_awaited actions)
  main_opens =
      let (opens, refuses, awaits) = main-Shows in
      let (there, back) = has_engine_iff pl env s in
      (
        (
          λ h. (ground arith, there (ground arith)),
          λ h. (let made = h.0 in let engine = back h.1 in ground arith),
        ),
        (
          λ h. (ground arith, λ engine. (let e = back engine in ground arith)),
          λ h.
              let made = h.0 in
              elim (Bool-cases (has_engine pl env s)) [
                | inl e ↦ absurd (h.1 (there e))
                | inr e ↦ ground arith
              ],
        ),
        awaits,
      )
