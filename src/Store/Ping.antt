-- ===== src/Store/Ping.antt =====
-- The health probe of src/local_transcription_service/queue/store.py.
use local_transcription_serv.Prelude.{String, Bool, ◌&&◌}

-- `ping_writable`, from whether a connection opens and which statements succeed on it; an exception
-- skips what follows it and is False.
unfoldable pub ping_writable : Bool → (String → Bool) → Bool
ping_writable connects execute = connects && (execute "BEGIN IMMEDIATE" && execute "COMMIT")
