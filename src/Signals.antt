-- ===== src/Signals.antt =====
-- pkg/signals: the signals of the agent, their generator and the metadata of their events.
pub mod Constants
pub mod Metadata
pub mod Generator
pub mod Events
mod Tests
