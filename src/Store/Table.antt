-- ===== src/Store/Table.antt =====
-- The `jobs` table: what the statements of src/local_transcription_service/queue/store.py do to a
-- list of rows, in the order of insertion.
use local_transcription_serv.Prelude.{
  ℕ, suc, String, Bool, false, Option, none, some, List, [], ◌∷◌, text_eq, if◌then◌else◌,
}
use local_transcription_serv.Models.{Row}

abbrev pub Db : Type 0
Db = List Row

-- A column equals a text; NULL equals nothing.
abbrev pub column_eq : Option String → String → Bool
column_eq none t = false
column_eq (some s) t = text_eq s t

-- SELECT * FROM jobs WHERE job_id = ?, the first row
unfoldable pub find_row : String → Db → Option Row
find_row id [] = none
find_row id (r ∷ db) = if text_eq r.job_id id then some r else find_row id db

module _ (where_clause : Row → Bool) where
  -- UPDATE jobs SET … WHERE …
  unfoldable pub update_rows : (Row → Row) → Db → Db
  update_rows change [] = []
  update_rows change (r ∷ db) = (if where_clause r then change r else r) ∷ update_rows change db

  -- cursor.rowcount of that statement
  unfoldable pub rowcount : Db → ℕ
  rowcount [] = 0
  rowcount (r ∷ db) = if where_clause r then suc (rowcount db) else rowcount db
