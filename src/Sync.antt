-- ===== src/Sync.antt =====
-- client/src/realtime/projectSyncEngine.ts: the mirror of the server's projects in a client. The
-- engine's private maps are the fields of `Engine`; a method returns the new engine. What listeners
-- are told is a log. A recovery is in flight from `recover` until its answer arrives, which is a
-- step of its own (`complete_recovery`), so live events may come in between.
pub mod Engine
pub mod Events
pub mod Recovery
pub mod CatchUp
pub mod Edits
pub mod Cells
pub mod Mirror
pub mod Overlay
pub mod Versions
