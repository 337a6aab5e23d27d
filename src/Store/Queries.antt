-- ===== src/Store/Queries.antt =====
-- The read-only queries of src/local_transcription_service/queue/store.py.
use mathlib.Core.Option
use local_transcription_serv.Prelude.{
  ℕ, String, Bool, Option, none, some, List, [], ◌∷◌, take, sorted, text_lt, not, ◌>>=◌,
  if◌then◌else◌,
}
use local_transcription_serv.Models.{Calendar, Job, Row, from_row}
use local_transcription_serv.Models.Status.{JobStatus, value}
use local_transcription_serv.Store.Table.{Db, find_row, rowcount}
use local_transcription_serv.Prelude.{text_eq}

abbrev pub has_status : JobStatus → Row → Bool
has_status s r = text_eq (value r.status) (value s)

-- SELECT * FROM jobs WHERE …
unfoldable pub select : (Row → Bool) → Db → List Row
select where_clause [] = []
select where_clause (r ∷ db) =
    let rest = select where_clause db in if where_clause r then r ∷ rest else rest

-- ORDER BY created_at ASC
abbrev pub created_le : Row → Row → Bool
created_le r s = not (text_lt s.created_at r.created_at)

-- `count_by_status`
unfoldable pub count_by_status : JobStatus → Db → ℕ
count_by_status s = rowcount (has_status s)

module _ (c : Calendar) where
  -- `get`: the outer `none` is a row that does not parse, the inner one is no row.
  unfoldable pub get : String → Db → Option (Option Job)
  get job_id db = elim (find_row job_id db) [
    | none ↦ some none
    | some r ↦ Option.map some (from_row c r)
  ]

  -- `[Job.from_row(dict(r)) for r in rows]`
  unfoldable pub from_rows : List Row → Option (List Job)
  from_rows [] = some []
  from_rows (r ∷ rows) = let rest = from_rows rows in do j ← from_row c r; js ← rest; some (j ∷ js)

  -- `list_by_status`
  unfoldable pub list_by_status : JobStatus → ℕ → Db → Option (List Job)
  list_by_status s limit db = from_rows (take limit (sorted created_le (select (has_status s) db)))
