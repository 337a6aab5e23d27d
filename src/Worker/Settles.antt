-- ===== src/Worker/Settles.antt =====
-- How the worker settles a job that nobody else touches meanwhile: `process_one` of
-- src/local_transcription_service/worker.py from the test of the job's attempts on.
pub mod Verdicts
use mathlib.Core.Option
use local_transcription_serv.Prelude.{
  ℕ, ◌+◌, String, Bool, true, false, some, ◌∷◌, ◌≡◌, refl, ◌∙◌, ap, sym, subst, Bool-cases, inl,
  inr, ltb, ◌&&◌, if◌then◌else◌, text_eq_self, text_eq_ne, arith,
}
use local_transcription_serv.Models.{Calendar, Job, JobError, Row, DateTime, at_utc, microseconds}
use local_transcription_serv.Models.Status.{is_claimed}
use local_transcription_serv.Metrics.{increment}
use local_transcription_serv.Pipeline.{ok, raises, Result}
use local_transcription_serv.Store.Table.{Db, find_row, column_eq}
use local_transcription_serv.Store.Keyed.{
  UniqueIds, KeepsId, update_one-accepts, update_rows-UniqueIds,
}
use local_transcription_serv.Store.Transitions.{
  update_one, may_finish, may_fail, may_start, mark_processing, mark_done, mark_failed, defer_retry,
  started, finished, failed_with, deferred_to,
}
use local_transcription_serv.Worker.{
  WorkerSettings, World, Surroundings, Outcome, processed, crashed, process_job, process_claimed,
  transcribe_job, deliver, handle_pipeline_failure, fail_job, error_from_exception,
  max_attempts_error, result_path, write_text, statement,
}
use local_transcription_serv.Worker.Statements.{statement-served}
pub use local_transcription_serv.Worker.Settles.Verdicts.{
  Verdict, delivers, retries, gives_up, breaks, on_failure, on_answer, verdict, Settled, OtherFiles,
}
use local_transcription_serv.FileWrite.{Write, written, refused, cut_off, on_write}

pub update_one-UniqueIds :
    (id : String) (guard : Row → Bool) (change : Row → Row)
    → KeepsId change
    → (db : Db) → UniqueIds db
    → UniqueIds (update_one id guard change db).0
unfolding update_one
update_one-UniqueIds id guard change keeps db u = update_rows-UniqueIds _ change keeps db u

module _ (c : Calendar) (s : WorkerSettings) (e : Surroundings) where
  module _ (quiet : (k : ℕ) (db : Db) → e.others k db ≡ db)
      (served : (k : ℕ) → e.refused k ≡ false) where
    -- A statement that nobody disturbs commits on the table as it was.
    undisturbed :
        (k : ℕ) (sql : Db → Db × Bool) (next : World → Bool → Outcome × World) (w : World)
        → statement e k sql next w ≡ next (record w { db = (sql w.db).0 }) (sql w.db).1
    undisturbed k sql next w = statement-served e k sql next w (served k) (quiet k w.db)

    fail_job_settles :
        (k : ℕ) (id token : String) (error : JobError) (w : World) {q : Row}
        → UniqueIds w.db
        → find_row id w.db ≡ some q
        → may_fail token q ≡ true
        → let (o, w') = fail_job c s e k id token error w in
          (o ≡ processed)
          × (find_row id w'.db ≡ some (failed_with c (e.clock k) error q))
          × (w'.error_rate_counter ≡ Option.map (increment error.code) w.error_rate_counter)
    unfolding fail_job mark_failed
    fail_job_settles k id token error w u f g =
        rw (undisturbed k (mark_failed c (e.clock k) id token error) _ w)
          (refl, (update_one-accepts id _ _ (λ r. refl) w.db u f g).1, refl)

    deliver_settles :
        (j : Job) (token text : String) (w : World) {q : Row}
        → UniqueIds w.db
        → find_row j.job_id w.db ≡ some q
        → may_finish token q ≡ true
        → e.write (result_path s j.job_id) text ≡ written
        → let (o, w') = deliver c s e j token text w in
          (o ≡ processed)
          × (find_row j.job_id w'.db ≡ some (finished c (e.clock 3) (result_path s j.job_id) q))
          × (w'.files (result_path s j.job_id) ≡ some text)
          × (w'.completed ≡ j.job_id ∷ w.completed)
          × OtherFiles (result_path s j.job_id) w w'
    unfolding deliver mark_done
    deliver_settles j token text w u f g whole =
        let path : String = result_path s j.job_id in
        let (done, found) =
          update_one-accepts j.job_id (may_finish token) (finished c (e.clock 3) path) (λ r. refl)
            w.db u f g in
        rw
          (
            whole,
            undisturbed 3 (mark_done c (e.clock 3) j.job_id token path) _ (write_text path text w),
            done,
          )
          (refl, found, rw (text_eq_self path) refl, refl, λ p n. rw (text_eq_ne p path n) refl)

    deliver_refused :
        (j : Job) (token text : String) (w : World)
        → e.write (result_path s j.job_id) text ≡ refused
        → deliver c s e j token text w ≡ (crashed, w)
    unfolding deliver
    deliver_refused j token text w h = rw h refl

    deliver_cut_off :
        (j : Job) (token text : String) (w : World) {left : String}
        → e.write (result_path s j.job_id) text ≡ cut_off left
        → deliver c s e j token text w ≡ (crashed, write_text (result_path s j.job_id) left w)
    unfolding deliver
    deliver_cut_off j token text w h = rw h refl

    handle_pipeline_failure_settles :
        (j : Job) (token : String) (error : JobError) (w₀ w : World) (r : Row)
        → UniqueIds w.db
        → find_row j.job_id w.db ≡ some (started c (e.clock 2) r)
        → may_fail token (started c (e.clock 2) r) ≡ true
        → w.error_rate_counter ≡ w₀.error_rate_counter
        → Settled c s e j r w₀
            (handle_pipeline_failure c s e j token error w)
            (on_failure c s e j (started c (e.clock 2) r) error)
    unfolding handle_pipeline_failure defer_retry
    handle_pipeline_failure_settles j token error w₀ w r u f g k =
        elim (Bool-cases (error.retryable && ltb j.attempt s.max_attempts)) [
          | inl b ↦
              (let at : DateTime = at_utc (e.clock 3 + microseconds s.retry_backoff_seconds) in
                let (deferred, found) =
                  update_one-accepts j.job_id (may_fail token) (deferred_to c at) (λ r. refl) w.db u
                    f g in
                rw (b, undisturbed 3 (defer_retry c j.job_id token at) _ w, deferred)
                  (refl, found, k))
          | inr b ↦
              (let (over, found, counted) = fail_job_settles 4 j.job_id token error w u f g in
                rw b (over, found, counted ∙ ap (Option.map (increment error.code)) k))
        ]

    transcribe_job_settles :
        (j : Job) (token : String) (w₀ w : World) (r : Row)
        → UniqueIds w.db
        → find_row j.job_id w.db ≡ some (started c (e.clock 2) r)
        → column_eq r.lease_token token ≡ true
        → w ≡ record w₀ { db = w.db }
        → Settled c s e j r w₀
            (transcribe_job c s e j token w)
            (on_answer c s e j (started c (e.clock 2) r) (e.transcribe j.video_url j.job_id))
    unfolding transcribe_job
    transcribe_job_settles j token w₀ w r u f g same = after (e.transcribe j.video_url j.job_id)
      where
        called : World
        called = record w { transcribed = j.job_id ∷ w.transcribed }

        after :
            (res : Result String)
            → Settled c s e j r w₀
                (elim res as (λ _. Outcome × World) [
                  | ok text ↦ deliver c s e j token text called
                  | raises exc ↦
                      handle_pipeline_failure c s e j token (error_from_exception exc) called
                ])
                (on_answer c s e j (started c (e.clock 2) r) res)
        after (ok text) = by_write (e.write (result_path s j.job_id) text) refl
          where
            by_write :
                (o : Write)
                → e.write (result_path s j.job_id) text ≡ o
                → Settled c s e j r w₀
                    (deliver c s e j token text called)
                    (on_answer c s e j (started c (e.clock 2) r) (ok text))
            by_write written h =
                let (over, found, file, reported, rest) =
                  deliver_settles j token text called u f (ground arith) h in
                rw h (
                  over,
                  found,
                  file,
                  reported ∙ ap (λ (v : World). j.job_id ∷ v.completed) same,
                  λ p n. rest p n ∙ ap (λ (v : World). v.files p) same,
                )
            by_write refused h =
                rw (h, deliver_refused j token text called h)
                  (
                    refl,
                    f,
                    ap (λ (v : World). v.error_rate_counter) same,
                    ap (λ (v : World). v.completed) same,
                    ap (λ (v : World). v.files (result_path s j.job_id)) same,
                    λ p n. ap (λ (v : World). v.files p) same,
                  )
            by_write (cut_off left) h =
                rw (h, deliver_cut_off j token text called h)
                  (
                    refl,
                    f,
                    ap (λ (v : World). v.error_rate_counter) same,
                    ap (λ (v : World). v.completed) same,
                    rw (text_eq_self (result_path s j.job_id)) refl,
                    λ p n.
                        rw (text_eq_ne p (result_path s j.job_id) n)
                          (ap (λ (v : World). v.files p) same),
                  )
        after (raises exc) =
            handle_pipeline_failure_settles j token _ w₀ called r u f (ground arith)
              (ap (λ (v : World). v.error_rate_counter) same)

    process_claimed_settles :
        (j : Job) (token : String) (w : World) {r : Row}
        → UniqueIds w.db
        → find_row j.job_id w.db ≡ some r
        → may_start token r ≡ true
        → Settled c s e j r w
            (process_claimed c s e j token w)
            (on_answer c s e j (started c (e.clock 2) r) (e.transcribe j.video_url j.job_id))
    unfolding process_claimed mark_processing
    process_claimed_settles j token w {r} u f g =
        let (moved, found) =
          update_one-accepts j.job_id (may_start token) (started c (e.clock 2)) (λ r. refl) w.db u f
            g in
        rw (undisturbed 2 (mark_processing c (e.clock 2) j.job_id token) _ w, moved)
          (transcribe_job_settles j token w _ r
            (update_one-UniqueIds j.job_id (may_start token) _ (λ r. refl) w.db u) found
            (ground arith) refl)

    -- A job that the worker has claimed, alone on the table.
    pub process_job_settles :
        (j : Job) (token : String) (w : World) (r : Row)
        → UniqueIds w.db
        → find_row j.job_id w.db ≡ some r
        → is_claimed r.status ≡ true
        → column_eq r.lease_token token ≡ true
        → j.lease_token ≡ some token
        → Settled c s e j r w (process_job c s e j w) (verdict c s e j r)
    unfolding process_job process_claimed transcribe_job deliver handle_pipeline_failure
    process_job_settles j token w r u f g l k =
        rw k (elim (Bool-cases (ltb s.max_attempts j.attempt)) [
          | inl b ↦
              (let (over, found, counted) =
                  fail_job_settles 2 j.job_id token _ w u f (ground arith) in
                rw b (over, found, counted))
          | inr b ↦ rw b (process_claimed_settles j token w u f (ground arith))
        ])
