-- ===== src/Files.antt =====
-- Binary files and records: src/fileloader.h and src/fileloader.cpp.
pub mod Otb
pub mod Streams
