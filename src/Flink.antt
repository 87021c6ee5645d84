-- ===== src/Flink.antt =====
-- processors/flink: the parts that decide what a Flink job computes.
pub mod FlinkTypes
pub mod Descriptors
pub mod Aggregations
pub mod Planner
pub mod Sliding
pub mod Builder
pub mod Composed
