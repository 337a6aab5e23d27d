-- ===== src/Store.antt =====
-- The job store: `JobStore` of src/local_transcription_service/queue/store.py.
-- The state is the table of jobs. Every operation is one statement on a connection of its own, so
-- it is one function from table to table; the clock's reading `now` (in UTC) and the texts of
-- `secrets.token_urlsafe` are arguments. SQLite, aiosqlite and the file are not modelled.
pub mod Table
pub mod Submit
pub mod Claim
pub mod Transitions
pub mod Queries
pub mod Ping
pub mod Listing
pub mod Readable
pub mod Oldest
pub mod Keyed
pub mod History
pub mod Reaches
pub mod Invariant
pub mod Lifecycle
pub mod Stamps
pub mod Once
pub mod Lease
pub mod Begun
pub mod Stuck
pub mod Exclusive
pub mod Refinement
