-- ===== src/Environment.antt =====
-- loader/loader_environment.c: the filters that environment variables give.
pub mod Filter
pub mod Shapes
pub mod Match
pub mod Meaning
pub mod Parsing
pub mod RoundTrip
pub mod Disable
pub mod Ids
pub mod IdRanges
mod IdTests
mod Tests
