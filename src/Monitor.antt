-- ===== src/Monitor.antt =====
-- monitor: polling of data points, with reads of nearby addresses merged into windows.
pub mod Plan
mod Runs
