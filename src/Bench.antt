-- ===== src/Bench.antt =====
-- The benchmarker of the contest (bench/).
pub mod Sse
pub mod Adler32
pub mod Fails
pub mod Action
pub mod Resume
pub mod Seed
pub mod Svg
pub mod Scenario
pub mod Matsuri
pub mod Watching
pub mod Worker
