-- ===== src/Models.antt =====
-- Domain models: src/local_transcription_service/models.py.
-- Jobs, their errors and states, the rows of the `jobs` table, and the conversion between a job
-- and its row. A `datetime` is a clock reading in microseconds with an optional `tzinfo`; the
-- standard library's `isoformat` and `fromisoformat` are the fields of a `Calendar`.
-- The status column is read as the member of `JobStatus` whose text it holds.
pub mod Status
pub mod Rows
use local_transcription_serv.Prelude.{
  ℤ, pos, ℕ, ◌*◌, String, Bool, true, false, Option, none, some, ◌==◌, not, text_eq, text_compare,
  if◌then◌else◌, compare, ◌≡◌, ◌>>=◌,
}
use mathlib.Core.Option
use Status.{JobStatus}

pub record JobError : Type 0 where
  pub code : String
  -- None only where it was read from a row without a message.
  pub message : Option String
  pub retryable : Bool

-- A `tzinfo` object: a `timezone` at a fixed offset in microseconds, or a zone under its name.
pub data TzInfo : Type 0 where
  timezone : ℤ → TzInfo
  zone : String → TzInfo

abbrev pub utc : TzInfo
utc = timezone (pos 0)

pub record DateTime : Type 0 where
  pub clock : ℕ
  pub tzinfo : Option TzInfo

-- `datetime.isoformat` and `datetime.fromisoformat`, where `none` is a ValueError, and the
-- `utcoffset` of a named zone at a clock reading.
pub record Calendar : Type 0 where
  pub isoformat : DateTime → String
  pub fromisoformat : String → Option DateTime
  pub zone_offset : String → ℕ → ℤ

-- Times count microseconds, the settings seconds.
abbrev pub microseconds : ℕ → ℕ
microseconds seconds = seconds * 1000000

-- The reading of `datetime.now(UTC)`.
abbrev pub at_utc : ℕ → DateTime
at_utc t = record { clock = t; tzinfo = some utc }

-- `datetime.utcoffset` of an aware time.
abbrev pub utcoffset : Calendar → ℕ → TzInfo → ℤ
utcoffset c t (timezone offset) = offset
utcoffset c t (zone name) = c.zone_offset name t

-- What the service relies on: the text form keeps the clock and the offset of an aware time, and
-- reads back at that fixed offset; it is never empty; and the texts of UTC times sort like the times.
pub record IsLawful (c : Calendar) : Type 0 where
  pub from-iso :
      (t : ℕ) (z : TzInfo)
      → c.fromisoformat (c.isoformat (record { clock = t; tzinfo = some z }))
        ≡ some (record { clock = t; tzinfo = some (timezone (utcoffset c t z)) })
  pub iso-nonempty : (d : DateTime) → text_eq (c.isoformat d) "" ≡ false
  pub compare-iso :
      (t u : ℕ) → text_compare (c.isoformat (at_utc t)) (c.isoformat (at_utc u)) ≡ compare t u

pub record Job : Type 0 where
  pub job_id : String
  pub video_url : String
  pub status : JobStatus
  pub attempt : ℕ
  pub created_at : DateTime
  pub started_at : Option DateTime
  pub finished_at : Option DateTime
  pub lease_token : Option String
  pub lease_expires_at : Option DateTime
  pub next_retry_at : Option DateTime
  pub transcript_path : Option String
  pub error : Option JobError
  pub acked_at : Option DateTime

-- A row of the `jobs` table. A NULL column is `none`.
pub record Row : Type 0 where
  pub job_id : String
  pub video_url : String
  pub status : JobStatus
  pub attempt : ℕ
  pub lease_token : Option String
  pub lease_expires_at : Option String
  pub next_retry_at : Option String
  pub created_at : String
  pub started_at : Option String
  pub finished_at : Option String
  pub transcript_path : Option String
  pub error_code : Option String
  pub error_message : Option String
  pub error_retryable : Option ℕ
  pub acked_at : Option String

-- `if dt.tzinfo is None: dt = dt.replace(tzinfo=UTC)`
unfoldable pub aware : DateTime → DateTime
aware d = elim d.tzinfo [ none ↦ record d { tzinfo = some utc } | some z ↦ d ]

abbrev pub int : Bool → ℕ
int true = 1
int false = 0

-- The error columns, read back: `bool` of NULL and of 0 is False.
unfoldable pub error_of_row : Row → Option JobError
error_of_row r = Option.map (λ (code : String). error code) r.error_code
  where
    error : String → JobError
    error code = record {
      code = code;
      message = r.error_message;
      retryable = elim r.error_retryable [ none ↦ false | some n ↦ not (n == 0) ];
    }

module _ (c : Calendar) where
  -- `_iso` of a time that is not None.
  unfoldable pub iso_text : DateTime → String
  iso_text d = c.isoformat (aware d)

  -- `_iso`
  unfoldable pub iso : Option DateTime → Option String
  unfolding iso_text
  iso d = Option.map iso_text d

  -- `_from_iso(s) if s else None`; the outer `none` is a ValueError.
  unfoldable pub from_iso : Option String → Option (Option DateTime)
  from_iso none = some none
  from_iso (some s) = if text_eq s "" then some none else Option.map some (c.fromisoformat s)

  unfoldable pub to_row : Job → Row
  to_row j = record {
    job_id = j.job_id;
    video_url = j.video_url;
    status = j.status;
    attempt = j.attempt;
    lease_token = j.lease_token;
    lease_expires_at = iso j.lease_expires_at;
    next_retry_at = iso j.next_retry_at;
    created_at = iso_text j.created_at;
    started_at = iso j.started_at;
    finished_at = iso j.finished_at;
    transcript_path = j.transcript_path;
    error_code = Option.map (λ (e : JobError). e.code) j.error;
    error_message = elim j.error [ none ↦ none | some e ↦ e.message ];
    error_retryable = Option.map (λ (e : JobError). int e.retryable) j.error;
    acked_at = iso j.acked_at;
  }

  -- `Job.from_row`; `none` is the ValueError of a malformed time.
  unfoldable pub from_row : Row → Option Job
  from_row r = do
    created_at ← c.fromisoformat r.created_at
    started_at ← from_iso r.started_at
    finished_at ← from_iso r.finished_at
    lease_expires_at ← from_iso r.lease_expires_at
    next_retry_at ← from_iso r.next_retry_at
    acked_at ← from_iso r.acked_at
    some (record {
      job_id = r.job_id;
      video_url = r.video_url;
      status = r.status;
      attempt = r.attempt;
      created_at = created_at;
      started_at = started_at;
      finished_at = finished_at;
      lease_token = r.lease_token;
      lease_expires_at = lease_expires_at;
      next_retry_at = next_retry_at;
      transcript_path = r.transcript_path;
      error = error_of_row r;
      acked_at = acked_at;
    })
