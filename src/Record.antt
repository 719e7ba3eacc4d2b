-- ===== src/Record.antt =====
-- include/new_mavlink/record.hpp and src/record.cpp: encrypted records.
-- `Types` has the data, `Replay` the window, `Header` the 40-byte header, `Session` the state of
-- one side of a session.
pub mod Types
pub mod Replay
pub mod Header
pub mod Session
