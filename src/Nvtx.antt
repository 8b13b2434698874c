-- ===== src/Nvtx.antt =====
-- integrations/nvtx: the events of a capture and the analyzer that reconstructs a model from them.
pub mod Event
pub mod Span
pub mod Anomalies
pub mod Ranges
pub mod Resource
pub mod Tables
pub mod Stats
pub mod Replay
pub mod Model
pub mod Ui
pub mod Tests
