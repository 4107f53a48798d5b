-- ===== src/Logging.antt =====
-- src/logging: the log manager, its queue and the lines that it writes.
pub mod Event
pub mod Queue
pub mod Lines
pub mod Recent
