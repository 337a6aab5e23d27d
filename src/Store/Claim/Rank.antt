-- ===== src/Store/Claim/Rank.antt =====
-- The order of the queue by times: what the text comparisons of `claim` mean.
use local_transcription_serv.Prelude.{
  ℕ, String, Bool, true, false, Option, none, some, ◌&&◌, ◌≡◌, refl, ◌∙◌, leb, is_some,
  text_compare, text_le, compare, is_lt, order_then, arith, if◌then◌else◌, ap, sym,
}
use local_transcription_serv.Models.{Calendar, IsLawful, Row, utc, at_utc, iso_text, aware}
use local_transcription_serv.Models.Status.{is_queued}
use local_transcription_serv.Store.Claim.{eligible, arrived, due, coalesce, precedes}

-- Before in the queue: a job without a retry time before one with it, then by the time at which
-- the job was due, then by its submission.
abbrev pub lex_lt : Bool → ℕ → ℕ → Bool → ℕ → ℕ → Bool
lex_lt false d e true d' e' = true
lex_lt true d e false d' e' = false
lex_lt _ d e _ d' e' = is_lt (order_then (compare d d') (compare e e'))

pub lex_lt_irrefl : (a : Bool) (d e : ℕ) → lex_lt a d e a d e ≡ false
lex_lt_irrefl true d e = ground arith
lex_lt_irrefl false d e = ground arith

pub lex_lt_asym :
    (a b : Bool) (d e d' e' : ℕ) → lex_lt a d e b d' e' ≡ true → lex_lt b d' e' a d e ≡ false
lex_lt_asym true true d e d' e' h = ground arith
lex_lt_asym true false d e d' e' h = ground arith
lex_lt_asym false true d e d' e' h = ground arith
lex_lt_asym false false d e d' e' h = ground arith

pub lex_lt_trans :
    (a b c : Bool) (d e d' e' d'' e'' : ℕ)
    → lex_lt c d'' e'' b d' e' ≡ false
    → lex_lt b d' e' a d e ≡ false
    → lex_lt c d'' e'' a d e ≡ false
lex_lt_trans true true true d e d' e' d'' e'' h k = ground arith
lex_lt_trans true true false d e d' e' d'' e'' h k = ground arith
lex_lt_trans true false true d e d' e' d'' e'' h k = ground arith
lex_lt_trans true false false d e d' e' d'' e'' h k = ground arith
lex_lt_trans false true true d e d' e' d'' e'' h k = ground arith
lex_lt_trans false true false d e d' e' d'' e'' h k = ground arith
lex_lt_trans false false true d e d' e' d'' e'' h k = ground arith
lex_lt_trans false false false d e d' e' d'' e'' h k = ground arith

module _ (c : Calendar) where
  -- The time that a text stands for.
  abbrev pub instant : String → ℕ
  instant s = elim (c.fromisoformat s) [ none ↦ 0 | some d ↦ d.clock ]

  -- A text that the service wrote.
  abbrev pub IsStamp : String → Type 0
  IsStamp s = s ≡ c.isoformat (at_utc (instant s))

  abbrev pub IsStamp? : Option String → Type 0
  IsStamp? none = Unit {0}
  IsStamp? (some s) = IsStamp s

  pub record IsStamped (r : Row) : Type 0 where
    pub created : IsStamp r.created_at
    pub retry : IsStamp? r.next_retry_at

  abbrev pub rank_lt : Row → Row → Bool
  rank_lt r s =
      lex_lt (is_some r.next_retry_at) (instant (due r)) (instant r.created_at)
        (is_some s.next_retry_at) (instant (due s)) (instant s.created_at)

  -- Waiting, with a retry time that is not in the future.
  abbrev pub arrived_by : ℕ → Option String → Bool
  arrived_by now none = true
  arrived_by now (some t) = leb (instant t) now

  abbrev pub claimable : ℕ → Row → Bool
  claimable now r = is_queued r.status && arrived_by now r.next_retry_at

  by_flags :
      (a b : Bool) (d d' e e' : ℕ)
      → (if a
          then (if b then is_lt (order_then (compare d d') (compare e e')) else false)
          else (if b then true else is_lt (order_then (compare d d') (compare e e'))))
        ≡ lex_lt a d e b d' e'
  by_flags true true d d' e e' = refl
  by_flags true false d d' e e' = refl
  by_flags false true d d' e e' = refl
  by_flags false false d d' e e' = refl

  module _ (L : IsLawful c) where
    pub compare-stamps :
        (s t : String) → IsStamp s → IsStamp t → text_compare s t ≡ compare (instant s) (instant t)
    compare-stamps s t p q = (λ i. text_compare (p i) (q i)) ∙ L.compare-iso (instant s) (instant t)

    coalesce-IsStamp :
        (o : Option String) (t : String) → IsStamp? o → IsStamp t → IsStamp (coalesce o t)
    coalesce-IsStamp none t h k = k
    coalesce-IsStamp (some s) t h k = h

    pub precedes-rank_lt : (r s : Row) → IsStamped r → IsStamped s → precedes r s ≡ rank_lt r s
    unfolding precedes
    precedes-rank_lt r s p q =
        let dr = coalesce-IsStamp r.next_retry_at r.created_at p.retry p.created in
        let ds = coalesce-IsStamp s.next_retry_at s.created_at q.retry q.created in
        simp
          (
            compare-stamps (due r) (due s) dr ds,
            compare-stamps r.created_at s.created_at p.created q.created,
          )
          (by_flags (is_some r.next_retry_at) (is_some s.next_retry_at) (instant (due r))
            (instant (due s)) (instant r.created_at) (instant s.created_at))

    instant-iso : (now : ℕ) → instant (iso_text c (at_utc now)) ≡ now
    unfolding iso_text aware
    instant-iso now = rw (L.from-iso now utc, instant)

    pub iso_text-IsStamp : (now : ℕ) → IsStamp (iso_text c (at_utc now))
    unfolding iso_text aware
    iso_text-IsStamp now = ap (λ t. c.isoformat (at_utc t)) (sym (instant-iso now))

    -- `next_retry_at <= ?` compares the times.
    arrived-arrived_by :
        (o : Option String) (now : ℕ)
        → IsStamp? o
        → arrived o (iso_text c (at_utc now)) ≡ arrived_by now o
    unfolding text_le iso_text aware
    arrived-arrived_by none now h = refl
    arrived-arrived_by (some s) now h =
        simp (compare-stamps s (iso_text c (at_utc now)) h (iso_text-IsStamp now), instant-iso now)
          (ground arith)

    pub eligible-claimable :
        (r : Row) (now : ℕ) → IsStamped r → eligible (iso_text c (at_utc now)) r ≡ claimable now r
    unfolding eligible
    eligible-claimable r now h = ap (◌&&◌ (is_queued r.status)) (arrived-arrived_by _ now h.retry)
