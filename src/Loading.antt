-- ===== src/Loading.antt =====
-- The binary tree files of items and maps: src/io/fileloader.h and src/io/fileloader.cpp.
pub mod FileLoader
pub mod Encoding
pub mod Runs
pub mod Placed
pub mod RoundTrip
pub mod PropStream
pub mod Streams
