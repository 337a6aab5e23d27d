-- ===== src/Store/Once.antt =====
-- How often a job can end and be acknowledged for the first time, by what the operations of
-- src/local_transcription_service/queue/store.py return.
use local_transcription_serv.Prelude.{
  ℕ, ◌+◌, ◌≤◌, String, Bool, true, false, some, List, [], ◌∷◌, ◌&&◌, ◌≡◌, refl, ◌∙◌, sym, ap, arith,
  is_some, text_eq, text_eq_iff, if◌then◌else◌, Bool-cases, Option-cases, inl, inr,
}
use local_transcription_serv.Models.{Calendar, Row}
use local_transcription_serv.Models.Status.{is_terminal}
use local_transcription_serv.Store.Table.{Db, find_row}
use local_transcription_serv.Store.Keyed.{
  UniqueIds, KeepsId, update_one-accepts, update_one-refuses, update_one-succeeds,
}
use local_transcription_serv.Store.Lifecycle.{apply-Survives}
use local_transcription_serv.Store.Stamps.{apply-UniqueIds}
use local_transcription_serv.Store.Transitions.{
  update_one, may_finish, may_fail, may_ack, finished, failed_with, acked, mark_done, mark_failed,
  ack_update,
}
use local_transcription_serv.Store.History.{
  Op, submits, claims, starts, finishes, fails, defers, acks, moves, reclaims, apply,
}

module _ (c : Calendar) where
  -- How many operations of a history pass a test on the table that they meet.
  abbrev pub count_ops : (Op → Db → Bool) → List Op → Db → ℕ
  count_ops test [] db = 0
  count_ops test (op ∷ ops) db =
      let rest = count_ops test ops (apply c op db) in (if test op db then 1 else 0) + rest

  -- The operation tells its caller that it has ended the job, or that it is the first to
  -- acknowledge it.
  abbrev pub ends : String → Op → Db → Bool
  ends id (finishes now job_id token path) db =
      text_eq job_id id && (mark_done c now job_id token path db).1
  ends id (fails now job_id token error) db =
      text_eq job_id id && (mark_failed c now job_id token error db).1
  ends id _ db = false

  abbrev pub first_acks : String → Op → Db → Bool
  first_acks id (acks now job_id) db = text_eq job_id id && (ack_update c now job_id db).1
  first_acks id _ db = false

  -- A test that passes but once: when it has passed, the table is in a state in which it fails, and
  -- which no operation leaves.
  module _ (test : Op → Db → Bool) (Closed : Db → Type 0)
      (closes : (op : Op) (db : Db) → UniqueIds db → test op db ≡ true → Closed (apply c op db))
      (refuses : (op : Op) (db : Db) → UniqueIds db → Closed db → test op db ≡ false)
      (stays : (op : Op) (db : Db) → Closed db → Closed (apply c op db)) where
    count_ops-closed :
        (ops : List Op) (db : Db) → UniqueIds db → Closed db → count_ops test ops db ≡ 0
    count_ops-closed [] db u h = refl
    count_ops-closed (op ∷ ops) db u h =
        let rest =
          count_ops-closed ops (apply c op db) (apply-UniqueIds c op db u) (stays op db h) in
        ground (arith, refuses op db u h, rest)

    count_ops-le_one : (ops : List Op) (db : Db) → UniqueIds db → count_ops test ops db ≤ 1
    count_ops-le_one [] db u = omega arith
    count_ops-le_one (op ∷ ops) db u = elim (Bool-cases (test op db)) [
      | inl e ↦
          (let rest =
              count_ops-closed ops (apply c op db) (apply-UniqueIds c op db u) (closes op db u e) in
            rw (e, rest) (omega arith))
      | inr e ↦
          (let rest = count_ops-le_one ops (apply c op db) (apply-UniqueIds c op db u) in
            rw e (omega (arith, rest)))
    ]

  module _ (id : String) where
    abbrev Terminal : Db → Type 0
    Terminal db = (r : Row) × (find_row id db ≡ some r) × (is_terminal r.status ≡ true)

    abbrev Acknowledged : Db → Type 0
    Acknowledged db = (r : Row) × (find_row id db ≡ some r) × (is_some r.acked_at ≡ true)

    Terminal-stays : (op : Op) (db : Db) → Terminal db → Terminal (apply c op db)
    Terminal-stays op db (r, e, t) =
        let (s, f, follows) = apply-Survives c id op db r e in
        let same = follows.terminal in (s, f, ground arith)

    Acknowledged-stays : (op : Op) (db : Db) → Acknowledged db → Acknowledged (apply c op db)
    Acknowledged-stays op db (r, e, t) =
        let (s, f, follows) = apply-Survives c id op db r e in
        let same = follows.acked in (s, f, ground arith)

    -- An UPDATE of one job, under a key that is compared with `id`.
    module _ (guard : Row → Bool) (change : Row → Row) (keeps : KeepsId change) where
      closes_by :
          (P : Row → Type 0) (key : String) (db : Db)
          → ((r : Row) → guard r ≡ true → P (change r))
          → UniqueIds db
          → (text_eq key id && (update_one key guard change db).1) ≡ true
          → (r : Row) × (find_row id (update_one key guard change db).0 ≡ some r) × P r
      closes_by P key db h u e =
          let same : key ≡ id = (text_eq_iff key id).0 (ground arith) in
          let passed : (update_one key guard change db).1 ≡ true = ground arith in
          elim (Option-cases (find_row key db)) [
            | inl f ↦
                absurd (clash (sym passed ∙ update_one-succeeds key guard change db u ∙ simp f))
            | inr (r, f) ↦
                (let g : guard r ≡ true =
                    sym (update_one-succeeds key guard change db u ∙ simp f) ∙ passed in
                  let (yes', found) = update_one-accepts key guard change keeps db u f g in
                  (
                    change r,
                    ap (λ k. find_row k (update_one key guard change db).0) (sym same) ∙ found,
                    h r g,
                  ))
          ]
        where
          clash : true ≡ false → ⊥
          clash k = cc

      refuses_by :
          (key : String) (db : Db) (r : Row)
          → UniqueIds db
          → find_row id db ≡ some r
          → guard r ≡ false
          → (text_eq key id && (update_one key guard change db).1) ≡ false
      refuses_by key db r u e g = elim (Bool-cases (text_eq key id)) [
        | inr f ↦ rw f refl
        | inl f ↦
            (let same : id ≡ key = sym ((text_eq_iff key id).0 f) in
              rw f (
                ap (λ (p : Db × Bool). p.1)
                  (update_one-refuses key guard change db u (ap (λ k. find_row k db) (sym same) ∙ e)
                    g)))
      ]

    Terminal-closes :
        (op : Op) (db : Db) → UniqueIds db → ends id op db ≡ true → Terminal (apply c op db)
    unfolding apply mark_done mark_failed
    Terminal-closes (finishes now key token path) db u h =
        closes_by (may_finish token) (finished c now path) (λ r. refl)
          (λ r. is_terminal r.status ≡ true) key db (λ r g. refl) u h
    Terminal-closes (fails now key token error) db u h =
        closes_by (may_fail token) (failed_with c now error) (λ r. refl)
          (λ r. is_terminal r.status ≡ true) key db (λ r g. refl) u h
    Terminal-closes (submits now token url job_id) db u h = absurd (ground arith)
    Terminal-closes (claims now ttl token) db u h = absurd (ground arith)
    Terminal-closes (starts now key token) db u h = absurd (ground arith)
    Terminal-closes (defers key token at) db u h = absurd (ground arith)
    Terminal-closes (acks now key) db u h = absurd (ground arith)
    Terminal-closes (moves key path) db u h = absurd (ground arith)
    Terminal-closes (reclaims now) db u h = absurd (ground arith)

    Terminal-refuses : (op : Op) (db : Db) → UniqueIds db → Terminal db → ends id op db ≡ false
    unfolding mark_done mark_failed
    Terminal-refuses (finishes now key token path) db u (r, e, t) =
        refuses_by (may_finish token) (finished c now path) (λ q. refl) key db r u e (ground arith)
    Terminal-refuses (fails now key token error) db u (r, e, t) =
        refuses_by (may_fail token) (failed_with c now error) (λ q. refl) key db r u e
          (ground arith)
    Terminal-refuses (submits now token url job_id) db u h = refl
    Terminal-refuses (claims now ttl token) db u h = refl
    Terminal-refuses (starts now key token) db u h = refl
    Terminal-refuses (defers key token at) db u h = refl
    Terminal-refuses (acks now key) db u h = refl
    Terminal-refuses (moves key path) db u h = refl
    Terminal-refuses (reclaims now) db u h = refl

    Acknowledged-closes :
        (op : Op) (db : Db)
        → UniqueIds db
        → first_acks id op db ≡ true
        → Acknowledged (apply c op db)
    unfolding apply ack_update
    Acknowledged-closes (acks now key) db u h =
        closes_by may_ack (acked c now) (λ r. refl) (λ r. is_some r.acked_at ≡ true) key db
          (λ r g. refl) u h
    Acknowledged-closes (submits now token url job_id) db u h = absurd (ground arith)
    Acknowledged-closes (claims now ttl token) db u h = absurd (ground arith)
    Acknowledged-closes (starts now key token) db u h = absurd (ground arith)
    Acknowledged-closes (finishes now key token path) db u h = absurd (ground arith)
    Acknowledged-closes (fails now key token error) db u h = absurd (ground arith)
    Acknowledged-closes (defers key token at) db u h = absurd (ground arith)
    Acknowledged-closes (moves key path) db u h = absurd (ground arith)
    Acknowledged-closes (reclaims now) db u h = absurd (ground arith)

    Acknowledged-refuses :
        (op : Op) (db : Db) → UniqueIds db → Acknowledged db → first_acks id op db ≡ false
    unfolding ack_update
    Acknowledged-refuses (acks now key) db u (r, e, t) =
        refuses_by may_ack (acked c now) (λ q. refl) key db r u e (ground arith)
    Acknowledged-refuses (submits now token url job_id) db u h = refl
    Acknowledged-refuses (claims now ttl token) db u h = refl
    Acknowledged-refuses (starts now key token) db u h = refl
    Acknowledged-refuses (finishes now key token path) db u h = refl
    Acknowledged-refuses (fails now key token error) db u h = refl
    Acknowledged-refuses (defers key token at) db u h = refl
    Acknowledged-refuses (moves key path) db u h = refl
    Acknowledged-refuses (reclaims now) db u h = refl

    -- If no two jobs share a key: over any history of operations, however the workers and clients
    -- interleave, at most one call of `mark_done` or `mark_failed` returns True for a job, and at most
    -- one `mark_acked` reports that it is the first.
    pub ends_once :
        (ops : List Op) (db : Db)
        → UniqueIds db
        → (count_ops (ends id) ops db ≤ 1) × (count_ops (first_acks id) ops db ≤ 1)
    ends_once ops db u = (
      count_ops-le_one (ends id) Terminal Terminal-closes Terminal-refuses Terminal-stays ops db u,
      count_ops-le_one (first_acks id) Acknowledged Acknowledged-closes Acknowledged-refuses
          Acknowledged-stays ops db u,
    )
