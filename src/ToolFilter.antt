-- ===== src/ToolFilter.antt =====
-- src/tool-filter/: which tools a server offers, by configuration and by session.
pub mod Types
pub mod Detector
pub mod Rules
pub mod Global
pub mod Session
pub mod Parsing
pub mod Categories
pub mod Decisions
pub mod Outcomes
mod Tests
