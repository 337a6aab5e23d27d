-- ===== src/Retention.antt =====
-- Trash retention: the policy of src/local_transcription_service/retention.py.
-- File times are counted in microseconds from the epoch, where the program has floats in seconds;
-- the rounding of floats is not modelled. A cutoff before the epoch is 0 here: no file is older.
pub mod Passes
pub mod Selection
pub mod Cleanup
pub mod Command
pub mod CliLogging
pub mod Exit
use local_transcription_serv.Prelude.{
  ℤ, pos, negsuc, ℕ, ◌+◌, ◌-◌, ◌*◌, String, Bool, true, false, Option, none, some, List, [], ◌∷◌,
  ◌++◌, ltb, leb, sorted, if◌then◌else◌,
}
use local_transcription_serv.Models.{microseconds}

pub record TrashEntry : Type 0 where
  pub path : String
  pub mtime : ℕ
  pub size : ℕ

abbrev pub seconds_per_day : ℕ
seconds_per_day = 86400

abbrev pub default_ttl_days : ℕ
default_ttl_days = 7

abbrev pub default_max_bytes : ℕ
default_max_bytes = 512 * 1024 * 1024

pub record RetentionPolicy : Type 0 where
  pub ttl_days : ℕ
  pub max_bytes : ℕ

-- `RetentionPolicy(…)` with `__post_init__`; `none` is its ValueError.
unfoldable pub retention_policy : ℤ → ℤ → Option RetentionPolicy
retention_policy (negsuc n) max_bytes = none
retention_policy (pos ttl_days) (negsuc n) = none
retention_policy (pos ttl_days) (pos max_bytes) =
    some (record { ttl_days = ttl_days; max_bytes = max_bytes })

-- The key of `sorted(files, key=lambda f: f.mtime)`.
abbrev pub by_mtime : TrashEntry → TrashEntry → Bool
by_mtime e f = leb e.mtime f.mtime

-- `sum(f.size for f in files)`
unfoldable pub total : List TrashEntry → ℕ
total [] = 0
total (e ∷ es) = e.size + total es

abbrev pub ttl_cutoff : RetentionPolicy → ℕ → ℕ
ttl_cutoff p now = now - microseconds (p.ttl_days * seconds_per_day)

unfoldable pub is_expired : RetentionPolicy → ℕ → TrashEntry → Bool
is_expired p now e = ltb e.mtime (ttl_cutoff p now)

-- Pass 1: the loop over `all_files`, with its two lists.
unfoldable pub split_expired :
    (TrashEntry → Bool) → List TrashEntry → List TrashEntry × List TrashEntry
split_expired expired [] = ([], [])
split_expired expired (e ∷ es) =
    let (selected, survivors) = split_expired expired es in
    if expired e then (e ∷ selected, survivors) else (selected, e ∷ survivors)

-- Pass 2: the loop with `freed`, which stops once `target` bytes are freed.
unfoldable pub oldest_until : ℕ → ℕ → List TrashEntry → List TrashEntry
oldest_until target freed [] = []
oldest_until target freed (e ∷ es) =
    let rest = oldest_until target (freed + e.size) es in if leb target freed then [] else e ∷ rest

-- The size pass of `select_for_deletion`, from the survivors.
unfoldable pub over_cap : ℕ → List TrashEntry → List TrashEntry
over_cap max_bytes [] = []
over_cap max_bytes survivors =
    let survivors_sorted = sorted by_mtime survivors in
    let survivors_total = total survivors_sorted in
    if leb survivors_total max_bytes
    then []
    else oldest_until (survivors_total - max_bytes) 0 survivors_sorted

-- `RetentionPolicy.select_for_deletion`
unfoldable pub select_for_deletion : RetentionPolicy → ℕ → List TrashEntry → List TrashEntry
select_for_deletion p now files =
    let (ttl_selected, survivors) = split_expired (is_expired p now) (sorted by_mtime files) in
    ttl_selected ++ over_cap p.max_bytes survivors
