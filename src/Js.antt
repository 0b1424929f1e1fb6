-- ===== src/Js.antt =====
-- The parts of JavaScript's standard library that the client uses.
pub mod Text
pub mod Number
pub mod Host
pub mod Outcome
pub mod Dates
