-- ===== src/Js.antt =====
-- What the program uses of the JavaScript language: texts, values, thrown errors.
pub mod Text
pub mod Outcome
pub mod Value
pub mod Json
pub mod Double
