-- ===== src/Worker/Recovery.antt =====
-- What becomes of a job whose worker is gone: `_reclaim_loop` of
-- src/local_transcription_service/worker.py with `reclaim_expired` of queue/store.py.
use mathlib.Core.Option
use local_transcription_serv.Prelude.{
  ℕ, String, Bool, true, false, not, ◌&&◌, Option, some, List, [], ◌∷◌, ◌≡◌, refl, ◌∙◌, ap, sym,
  subst, any, All, ltb, text_lt, is_lt, arith, Bool-cases, inl, inr, if-elim, is_some,
  if◌then◌else◌,
}
use local_transcription_serv.Models.{Calendar, IsLawful, Row, at_utc, iso_text, aware}
use local_transcription_serv.Models.Status.{is_active}
use local_transcription_serv.Store.Table.{Db, find_row}
use local_transcription_serv.Store.Keyed.{
  UniqueIds, updated, find_row-update_rows, update_rows-UniqueIds, update_one-refuses,
}
use local_transcription_serv.Store.Claim.{eligible, arrived, first_eligible, claim_update}
use local_transcription_serv.Store.Transitions.{
  reclaim_expired, may_reclaim, reclaimed, expired_by, in_work, mark_done,
}
use local_transcription_serv.Worker.Loops.{Round, reclaim_once, reclaim_loop}

-- A round in which nobody else writes.
abbrev pub Quiet : Round → Type 0
Quiet q = (db : Db) → q.others db ≡ db

-- A round that runs the UPDATE after a time.
abbrev pub runs_after : ℕ → Round → Bool
runs_after expiry q = not q.raises && ltb expiry q.now

module _ (c : Calendar) (L : IsLawful c) where
  text_lt-iso : (t u : ℕ) → text_lt (iso_text c (at_utc t)) (iso_text c (at_utc u)) ≡ ltb t u
  unfolding text_lt iso_text aware
  text_lt-iso t u = ap is_lt (L.compare-iso t u) ∙ ground arith

  module _ (id : String) (r : Row) (expiry : ℕ) (held : is_active r.status ≡ true)
      (until : r.lease_expires_at ≡ some (iso_text c (at_utc expiry))) where
    expires : (now : ℕ) → may_reclaim (iso_text c (at_utc now)) r ≡ ltb expiry now
    expires now =
        ap (λ (o : Option String). in_work r && expired_by (iso_text c (at_utc now)) o) until
        ∙ ground (arith, text_lt-iso expiry now)

    reclaim_once-reclaimed :
        (now : ℕ) (db : Db)
        → find_row id db ≡ some r
        → find_row id (reclaim_once c now db).0 ≡ some (if ltb expiry now then reclaimed r else r)
    unfolding reclaim_once reclaim_expired
    reclaim_once-reclaimed now db e =
        find_row-update_rows (may_reclaim (iso_text c (at_utc now))) reclaimed (λ q. refl) id db
        ∙ ap (Option.map (updated (may_reclaim (iso_text c (at_utc now))) reclaimed)) e
        ∙ ap (λ (b : Bool). some (if b then reclaimed r else r)) (expires now)

    -- A job that waits is left alone.
    reclaim_once-waiting :
        (now : ℕ) (db : Db)
        → find_row id db ≡ some (reclaimed r)
        → find_row id (reclaim_once c now db).0 ≡ some (reclaimed r)
    unfolding reclaim_once reclaim_expired
    reclaim_once-waiting now db e =
        find_row-update_rows (may_reclaim (iso_text c (at_utc now))) reclaimed (λ q. refl) id db
        ∙ ap (Option.map (updated (may_reclaim (iso_text c (at_utc now))) reclaimed)) e

    reclaim_loop-waiting :
        (rounds : List Round) (db : Db)
        → All Quiet rounds
        → find_row id db ≡ some (reclaimed r)
        → find_row id (reclaim_loop c rounds db) ≡ some (reclaimed r)
    unfolding reclaim_loop
    reclaim_loop-waiting [] db h e = e
    reclaim_loop-waiting (q ∷ rounds) db h e =
        let there = ap (find_row id) (h.0 db) ∙ e in
        reclaim_loop-waiting rounds _ h.1 (
          if-elim (λ (x : Db). find_row id x ≡ some (reclaimed r)) q.raises there
            (reclaim_once-waiting q.now (q.others db) there))

    reclaim_loop-reclaimed :
        (rounds : List Round) (db : Db)
        → All Quiet rounds
        → find_row id db ≡ some r
        → any (runs_after expiry) rounds ≡ true
        → find_row id (reclaim_loop c rounds db) ≡ some (reclaimed r)
    unfolding reclaim_loop
    reclaim_loop-reclaimed [] db h e k = cc
    reclaim_loop-reclaimed (q ∷ rounds) db h e k =
        let there = ap (find_row id) (h.0 db) ∙ e in
        let once = reclaim_once-reclaimed q.now (q.others db) there in
        elim (Bool-cases (runs_after expiry q)) [
          | inl runs ↦ reclaim_loop-waiting rounds _ h.1 (ground (arith, once))
          | inr runs ↦ reclaim_loop-reclaimed rounds _ h.1 (ground (arith, once)) (rw runs at k)
        ]

reclaim_loop-UniqueIds :
    (c : Calendar) (rounds : List Round) (db : Db)
    → All Quiet rounds
    → UniqueIds db
    → UniqueIds (reclaim_loop c rounds db)
unfolding reclaim_loop reclaim_once reclaim_expired
reclaim_loop-UniqueIds c [] db h u = u
reclaim_loop-UniqueIds c (q ∷ rounds) db h u =
    let there = subst UniqueIds (sym (h.0 db)) u in
    reclaim_loop-UniqueIds c rounds _ h.1 (
      if-elim UniqueIds q.raises there (
        update_rows-UniqueIds (may_reclaim (iso_text c (at_utc q.now))) reclaimed (λ r. refl)
          (q.others db) there))

-- Where a job is eligible, the subquery of a claim returns some job.
first_eligible-some :
    (now id : String) (db : Db) {r : Row}
    → find_row id db ≡ some r
    → eligible now r ≡ true
    → is_some (first_eligible now db) ≡ true
unfolding first_eligible find_row
first_eligible-some now id [] e f = cc
first_eligible-some now id (s ∷ db) {r} e f = ground (arith, first_eligible-some now id db {r = r})

-- With a lawful calendar, if no two jobs share a key and nobody else writes meanwhile, a job in work
-- whose lease expires at some time waits in the queue again once the reclaim loop has run its
-- UPDATE after that time, with no lease and the attempts that it had; from the time of its last
-- deferral on, if it has one, a claim hands out some job; and no token that a worker may still hold
-- finishes it.
pub reclaim_loop_recovers :
    (c : Calendar)
    → IsLawful c
    → (id token fresh path : String) (r : Row) (expiry now later ttl : ℕ) (rounds : List Round)
      (db : Db)
    → UniqueIds db
    → find_row id db ≡ some r
    → is_active r.status ≡ true
    → r.lease_expires_at ≡ some (iso_text c (at_utc expiry))
    → All Quiet rounds
    → any (runs_after expiry) rounds ≡ true
    → arrived r.next_retry_at (iso_text c (at_utc now)) ≡ true
    → let after = reclaim_loop c rounds db in
      (find_row id after ≡ some (reclaimed r))
      × (is_some (claim_update c now ttl fresh after).1 ≡ true)
      × (mark_done c later id token path after ≡ (after, false))
unfolding claim_update mark_done eligible
reclaim_loop_recovers c L id token fresh path r expiry now later ttl rounds db u e held until quiet
      runs due =
    let after = reclaim_loop c rounds db in
    let waits = reclaim_loop-reclaimed c L id r expiry held until rounds db quiet e runs in
    let next = first_eligible-some (iso_text c (at_utc now)) id after waits (ground arith) in
    (
      waits,
      ground (arith, next),
      update_one-refuses id _ _ after (reclaim_loop-UniqueIds c rounds db quiet u) waits
          (ground arith),
    )
