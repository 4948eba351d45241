-- ===== src/Metrics.antt =====
-- sf-metrics: counters, gauges and histograms in memory.
pub mod Float
pub mod Buckets
pub mod Search
pub mod Labels
pub mod Sorted
pub mod LabelOrder
pub mod Storage
pub mod Handles
pub mod Values
pub mod Export
pub mod Reading
mod Tests
mod ReadingTests
pub mod Locating
