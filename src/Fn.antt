-- ===== src/Fn.antt =====
-- Functions and structs as handlers, by reflection: the package fn.
pub mod Values
pub mod Call
pub mod Handler
pub mod Outcomes
pub mod Runs
pub mod Table
pub mod Reference
pub mod Methods
mod Tests
