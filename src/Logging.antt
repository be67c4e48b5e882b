-- ===== src/Logging.antt =====
-- C/logging: the front end (Record, log.c), the log file (File, log_file.c) and the asynchronous
-- back end (Async, log_async.c).
pub mod File
pub mod Record
pub mod Async
