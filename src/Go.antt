-- ===== src/Go.antt =====
-- The parts of Go's standard library that the controller's text handling rests on.
pub mod Strings
pub mod Strconv
pub mod Net
