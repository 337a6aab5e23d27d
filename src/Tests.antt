-- ===== src/Tests.antt =====
-- The theorems at concrete inputs, and the calendar that the inputs use.
pub mod Clock
mod Store
mod Files
mod Service
mod Pipeline
mod Queue
mod Startup
mod Http
mod Client
mod Logs
