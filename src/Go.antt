-- ===== src/Go.antt =====
-- What the program takes from the Go language and its standard library: text, errors, methods that
-- change state, instants and durations, and 64-bit floats.
pub mod Text
pub mod Error
pub mod Exec
pub mod Time
pub mod Float
