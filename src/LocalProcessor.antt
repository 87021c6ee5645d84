-- ===== src/LocalProcessor.antt =====
-- processors/local/local_processor.py
pub mod Dependent
pub mod Join
pub mod PointInTime
pub mod OverWindow
pub mod Groups
pub mod OverReference
pub mod OverBounds
pub mod Frame
pub mod Tables
pub mod GetTable
pub mod SlidingTable
mod Evaluate
mod Tests
mod OverTests
