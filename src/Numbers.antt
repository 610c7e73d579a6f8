-- ===== src/Numbers.antt =====
-- The arithmetic that the backend calls and does not implement: decimal.js and Postgres
-- `numeric(30,8)` columns. A `Numeral` is a string that holds an amount; the program hands it to
-- these two libraries and never looks inside.
mod Interface
mod Laws
pub mod Scaled
pub use Interface.{Numbers}
pub use Laws.*
