-- ===== src/Lib.antt =====
-- The local transcription service: a queue of video URLs in SQLite, workers that lease jobs from
-- it and send their audio to a speech-to-text gateway, and the clean-up of old transcripts.
-- Paths are relative to the root of the repository.
--
-- The parts and their files
--   Models        src/local_transcription_service/models.py: Job, JobError, JobStatus, the row
--                 of the jobs table, to_row and from_row.
--   Store         src/local_transcription_service/queue/store.py. Store.Table is SQLite seen as a
--                 list of rows with SELECT, UPDATE and rowcount; Store.Submit holds init and
--                 submit, Store.Claim the UPDATE of claim with its subquery, Store.Transitions the
--                 methods mark_processing, mark_done, mark_failed, defer_retry, mark_acked,
--                 update_transcript_path and reclaim_expired, Store.Queries get, list_by_status
--                 and count_by_status, Store.Ping ping_writable. Store.History is a sequence of
--                 these operations. The proofs stand in Store.Keyed (one key), Store.Reaches,
--                 Store.Invariant, Store.Lifecycle, Store.Refinement, Store.Exclusive,
--                 Store.Lease, Store.Stuck, Store.Begun, Store.Stamps, Store.Once, Store.Listing,
--                 Store.Readable, Store.Oldest and Store.Claim.Rank and Order.
--   Worker        src/local_transcription_service/worker.py: process_one, _error_from_exception
--                 and _handle_pipeline_failure; Worker.Loops has the loops and run_forever,
--                 Worker.Keeps and Worker.Commits relate an iteration to the store's histories
--                 (Worker.Statements has one statement of it), Worker.Settles to the job's row,
--                 the result file and the counter, and Worker.Iteration does so from the claim on.
--                 Worker.Calls and Worker.Attempts are about the calls of the pipeline,
--                 Worker.Alone and Worker.Ends about the end of a job, Worker.Recovery about the
--                 reclaim loop.
--   Pipeline      src/local_transcription_service/pipeline/base.py: exceptions and results.
--                 Pipeline.Process is _run_subprocess, Pipeline.Cache and Pipeline.Stages are the
--                 rest of pipeline/stages.py with RealPipeline, Pipeline.Whisper is
--                 pipeline/whisper_pipeline.py, Pipeline.Engine the protocol of stt/base.py.
--                 The proofs stand in Pipeline.Cleaning, Pipeline.Outcomes, Pipeline.Messages,
--                 Pipeline.Codes and Pipeline.Logged.
--   Stt           src/local_transcription_service/stt/litellm_whisper.py: transcribe, is_ready and
--                 _list_models over JSON values, and the constructor in Stt.Connection.
--                 Stt.Engines has this client and the one of stt/mock.py as engines. Stt.Ready
--                 says when the gateway lists a model, Stt.Uploads when audio is sent.
--   Transcripts   src/local_transcription_service/queue/transcripts.py: move_to_trash;
--                 Transcripts.Effect and Transcripts.Move are about the files.
--   Retention     src/local_transcription_service/retention.py: the policy, its selection
--                 (Retention.Passes, Retention.Selection), run_cleanup (Retention.Cleanup) and
--                 the command (Retention.Command, Retention.Exit) with its log
--                 (Retention.CliLogging).
--   Metrics       src/local_transcription_service/metrics.py: the error-rate counter and its
--                 loop.
--   Api           src/local_transcription_service/api/jobs.py: submit_job, get_job, get_result and
--                 ack_job, with api/schemas.py's responses as records. ack_job stands in Api.Ack,
--                 its effects in Api.Ack.Effects and Answers, repeated calls of it in
--                 Api.Ack.Phases, Api.Ack.Interrupted and Api.Ack.Converges; Api.Submission reads
--                 a submission back, Api.Result a transcript. Api.Schemas is the request of
--                 api/schemas.py, Api.Health src/local_transcription_service/api/health.py.
--   Auth          src/local_transcription_service/auth.py: require_token and the endpoints behind
--                 it; Auth.Posting is POST /jobs as a whole.
--   Config        src/local_transcription_service/config.py: the settings.
--   Client        a submission, the worker's iteration and the reading of the result together
--                 (Client.Delivery), and the same with the pipeline (Client.Whole).
--   Logging       src/local_transcription_service/logging.py: the formatter (Logging.Payload) and
--                 the handlers of the root logger (Logging.Handlers).
--   App           src/local_transcription_service/app.py: create_app, the engine, the pipeline,
--                 the start-up probe, _run and main; App.ConfigLine is the settings' log line.
--   OpenApi       scripts/extract-openapi.py; OpenApi.Writing is about the file that it writes.
--   FileWrite     what becomes of a `write_text`, for the worker and for OpenApi.
--   Prelude       shared library names, tests, lists and sorting.
--   Tests         the theorems at concrete inputs.
--
-- How the code is read
--   A statement of the store is a function on the list of rows, with the WHERE clause, the SET
--   clause and the rowcount written out; SQLite runs each as one transaction. Operations of
--   several workers, the reclaim loop and the HTTP handlers are a list of operations in the order
--   of their commits. At each await of process_one and ack_job the others commit what the argument
--   `others` says, and the database may refuse the statement, which raises. A time is a natural
--   number of microseconds, with an optional zone where it is a datetime and from the epoch where
--   it is one of retention.py's floats; isoformat, fromisoformat and utcoffset are a Calendar, and
--   IsLawful says what the service relies on: the text keeps the clock and the offset of an aware
--   time, and the texts of UTC times sort like the times. Where claim reads the clock twice, it is
--   read once; the numbers among the worker's settings are natural, where config.py takes any int.
--   Clock readings, tokens and the answers of the pipeline, of httpx and of the file system are
--   arguments. Where ORDER BY leaves a tie, the row that was inserted first comes first. Every
--   loop is a structural recursion, so no fuel is needed.
--
-- Programs
--   yt-dlp and ffmpeg are one argument, a function from an argument list, a time and the audio
--   cache to an exit and the cache afterwards; other jobs may use the cache meanwhile. The cache
--   is a list of named entries, or none where the directory is missing. Bytes are texts, and
--   their decoding, str.lower, repr and pathlib are arguments.
--
-- Not modelled
--   The log lines but for those of the stages, the error rates, the settings and the start-up
--   probe; argparse, whose values are arguments; the connection pragmas of the store; the
--   cancellation of asyncio tasks; FastAPI's routing, uvicorn and json.dumps. A status column that
--   holds no member of JobStatus is not represented.
pub mod Prelude
pub mod Models
pub mod Store
pub mod Retention
pub mod Metrics
pub mod Pipeline
pub mod Worker
pub mod Stt
pub mod Transcripts
pub mod FileWrite
pub mod Logging
pub mod Api
pub mod Client
pub mod Auth
pub mod Config
pub mod App
pub mod OpenApi
pub mod Tests
