-- ===== src/History.antt =====
-- src/lsdsk/domain/history.py: counters over time, and the rules that turn a stored total into a rate.
pub mod Types
pub mod Thin
pub mod Trend
pub mod Record
pub mod Merge
pub mod Tests
