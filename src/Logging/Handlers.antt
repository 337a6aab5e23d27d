-- ===== src/Logging/Handlers.antt =====
-- The handlers of the root logger after `configure_logging` of
-- src/local_transcription_service/logging.py.
use local_transcription_serv.Prelude.{
  ℕ, String, Bool, true, false, not, List, [], ◌∷◌, ◌++◌, ◌≡◌, refl, ◌∙◌, ap, arith, any, filter,
  All, All-append, if◌then◌else◌, ◌==◌, Bool-cases, inl, inr,
}
use mathlib.Core.List.{append_assoc}
use local_transcription_serv.Logging.{
  Root, remove_handler, add_handler, remove_marked, configure_logging,
}

module _ (marked : ℕ → Bool) where
  -- The handlers that others have installed.
  abbrev pub foreign : List ℕ → List ℕ
  foreign = filter (λ h. not (marked h))

  remove_handler-append :
      (h : ℕ)
      → marked h ≡ true
      → (before after : List ℕ) → All (λ k. marked k ≡ false) before
      → remove_handler h (before ++ (h ∷ after)) ≡ before ++ after
  unfolding remove_handler
  remove_handler-append h m [] after all = ground arith
  remove_handler-append h m (k ∷ before) after all =
      ground (arith, remove_handler-append h m before after all.1)

  remove_marked-append :
      (before after : List ℕ)
      → All (λ k. marked k ≡ false) before
      → remove_marked marked after (before ++ after) ≡ before ++ foreign after
  unfolding remove_marked
  remove_marked-append before [] all = refl
  remove_marked-append before (h ∷ after) all = elim (Bool-cases (marked h)) [
    | inl e ↦
        rw (e, remove_handler-append h e before after all) (remove_marked-append before after all)
    | inr e ↦
        rw (e, ← append_assoc before (h ∷ []) after)
          (remove_marked-append (before ++ (h ∷ [])) after
              (All-append (λ k. marked k ≡ false) before (h ∷ []) all (e, tt))
            ∙ append_assoc before (h ∷ []) (foreign after))
  ]

-- The handler is a new object.
abbrev pub IsFresh : ℕ → List ℕ → Type 0
IsFresh h handlers = any (λ k. k == h) handlers ≡ false

IsFresh-foreign :
    (marked : ℕ → Bool) (h : ℕ) (handlers : List ℕ)
    → IsFresh h handlers
    → IsFresh h (foreign marked handlers)
IsFresh-foreign marked h [] fresh = refl
IsFresh-foreign marked h (k ∷ handlers) fresh = ground (arith, IsFresh-foreign marked h handlers)

-- The mark of a new handler does not touch those that were there.
foreign-marked :
    (marked : ℕ → Bool) (h : ℕ) (handlers : List ℕ)
    → IsFresh h handlers
    → foreign (λ k. if k == h then true else marked k) (foreign marked handlers ++ (h ∷ []))
      ≡ foreign marked handlers
foreign-marked marked h [] fresh = ground arith
foreign-marked marked h (k ∷ handlers) fresh = ground (arith, foreign-marked marked h handlers)

configure_logging-handlers :
    (level : String) (h : ℕ) (root : Root)
    → IsFresh h root.handlers
    → (configure_logging level h root).handlers ≡ foreign root.marked root.handlers ++ (h ∷ [])
unfolding configure_logging add_handler
configure_logging-handlers level h root fresh =
    rw
      (
        remove_marked-append root.marked [] root.handlers tt,
        IsFresh-foreign root.marked h root.handlers fresh,
      )
      refl

-- Calls of `configure_logging`, each with its level and its new handler.
abbrev pub configure_all : List (String × ℕ) → Root → Root
configure_all [] root = root
configure_all ((level, h) ∷ calls) root = configure_all calls (configure_logging level h root)

abbrev pub AllFresh : List (String × ℕ) → Root → Type 0
AllFresh [] root = Unit {0}
AllFresh ((level, h) ∷ calls) root =
    IsFresh h root.handlers × AllFresh calls (configure_logging level h root)

configure_all-foreign :
    (calls : List (String × ℕ)) (root : Root)
    → AllFresh calls root
    → let after = configure_all calls root in
      foreign after.marked after.handlers ≡ foreign root.marked root.handlers
unfolding configure_logging
configure_all-foreign [] root fresh = refl
configure_all-foreign ((level, h) ∷ calls) root fresh =
    configure_all-foreign calls (configure_logging level h root) fresh.1
    ∙ ap (foreign (λ k. if k == h then true else root.marked k))
        (configure_logging-handlers level h root fresh.0)
    ∙ foreign-marked root.marked h root.handlers fresh.0

-- However often `configure_logging` is called, each time with a new handler: after the last call the
-- root logger has the handlers that others installed, in their order, then the handler of this call
-- as the only one with the mark, and the level of this call.
pub configure_logging-IsIdempotent :
    (calls : List (String × ℕ)) (level : String) (h : ℕ) (root : Root)
    → AllFresh calls root
    → IsFresh h (configure_all calls root).handlers
    → let after = configure_logging level h (configure_all calls root) in
      (after.handlers ≡ foreign root.marked root.handlers ++ (h ∷ []))
      × (filter after.marked after.handlers ≡ h ∷ [])
      × (after.level ≡ level)
unfolding configure_logging
configure_logging-IsIdempotent calls level h root fresh last = (
  configure_logging-handlers level h (configure_all calls root) last
      ∙ ap (λ hs. hs ++ (h ∷ [])) (configure_all-foreign calls root fresh),
  ap (filter (λ k. if k == h then true else (configure_all calls root).marked k))
        (configure_logging-handlers level h (configure_all calls root) last)
      ∙ only_new (configure_all calls root).marked (configure_all calls root).handlers last,
  refl,
)
  where
    only_new :
        (marked : ℕ → Bool) (handlers : List ℕ)
        → IsFresh h handlers
        → filter (λ k. if k == h then true else marked k) (foreign marked handlers ++ (h ∷ []))
          ≡ h ∷ []
    only_new marked [] f = ground arith
    only_new marked (k ∷ handlers) f = ground (arith, only_new marked handlers)
