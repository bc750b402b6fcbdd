-- ===== src/Range.antt =====
-- src/range.rs: closed intervals of `i32` values, and sets of values as lists of intervals.
pub mod Interval
pub mod Sets
