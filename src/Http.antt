-- ===== src/Http.antt =====
-- The header and text routines at the top of src/fastdl_server.cpp.
pub mod Tests
pub mod Range
pub mod Ranges
pub mod Text
pub mod TextLaws
