-- ===== src/Logs.antt =====
-- What the log lines of an error say: src/common/utils.
pub mod Frames
pub mod Trace
pub mod Origin
pub mod Options
