-- ===== src/Client.antt =====
-- The service as a client meets it: the handlers of src/local_transcription_service/api/jobs.py
-- together with the worker of src/local_transcription_service/worker.py.
pub mod Delivery
pub mod Whole
