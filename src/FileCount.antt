-- ===== src/FileCount.antt =====
-- plugins/file_count/check_file_count.cpp: the number of files in a directory, held against two limits.
pub mod Wildcard
pub mod Tree
pub mod Check
