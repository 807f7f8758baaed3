-- ===== src/Go.antt =====
-- What the source uses of the Go language and its standard library: machine integers, time and
-- floating point.
pub mod Int64
pub mod Text
pub mod Time
pub mod Float64
