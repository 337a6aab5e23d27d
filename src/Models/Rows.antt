-- ===== src/Models/Rows.antt =====
-- A job's way into its row and back: `to_row` and `from_row` of
-- src/local_transcription_service/models.py.
use mathlib.Core.Option
use local_transcription_serv.Prelude.{ℕ, Option, none, some, ◌≡◌, refl, arith}
use local_transcription_serv.Models.{
  Calendar, IsLawful, DateTime, TzInfo, timezone, utc, utcoffset, Job, aware, iso, iso_text,
  from_iso, to_row, from_row, error_of_row,
}

-- A time as it reads after the way through its text: a naive one is taken for UTC, and of a zone
-- the offset is left.
abbrev pub at_offset : Calendar → DateTime → DateTime
at_offset c d = record d {
  tzinfo = elim d.tzinfo [ none ↦ some utc | some z ↦ some (timezone (utcoffset c d.clock z)) ];
}

-- The job as it reads after the way through the database.
abbrev pub fixed : Calendar → Job → Job
fixed c j = record j {
  created_at = at_offset c j.created_at;
  started_at = Option.map (at_offset c) j.started_at;
  finished_at = Option.map (at_offset c) j.finished_at;
  lease_expires_at = Option.map (at_offset c) j.lease_expires_at;
  next_retry_at = Option.map (at_offset c) j.next_retry_at;
  acked_at = Option.map (at_offset c) j.acked_at;
}

module _ (c : Calendar) (L : IsLawful c) where
  aware-from-iso_at :
      (t : ℕ) (z : Option TzInfo)
      → let d : DateTime = record { clock = t; tzinfo = z } in
        c.fromisoformat (c.isoformat (aware d)) ≡ some (at_offset c d)
  unfolding aware
  aware-from-iso_at t none = L.from-iso t utc
  aware-from-iso_at t (some z) = L.from-iso t z

  aware-from-iso : (d : DateTime) → c.fromisoformat (c.isoformat (aware d)) ≡ some (at_offset c d)
  aware-from-iso d = aware-from-iso_at d.clock d.tzinfo

  from_iso-iso : (d : Option DateTime) → from_iso c (iso c d) ≡ some (Option.map (at_offset c) d)
  unfolding from_iso iso
  from_iso-iso none = refl
  from_iso-iso (some d) = rw (L.iso-nonempty (aware d), aware-from-iso d)

  error_of_row-to_row : (j : Job) → error_of_row (to_row c j) ≡ j.error
  unfolding error_of_row to_row
  error_of_row-to_row j = ground arith

  pub from_row-to_row : (j : Job) → from_row c (to_row c j) ≡ some (fixed c j)
  unfolding from_row to_row iso_text
  from_row-to_row j = simp (aware-from-iso, from_iso-iso, error_of_row-to_row)
