-- ===== src/Webapp.antt =====
-- The drawing application of the contest, in its Go version (webapp/go/app.go).
pub mod Schema
pub mod Queries
pub mod Rooms
pub mod Strokes
pub mod Stream
pub mod Integrity
pub mod Drawing
pub mod Mux
mod Tests
