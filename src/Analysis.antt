-- ===== src/Analysis.antt =====
-- src/analysis.rs: the events and counts of a run, and the report on each entry that may be recovered.
pub mod Counts
pub mod Events
pub mod Tally
pub mod Report
pub mod Walk
