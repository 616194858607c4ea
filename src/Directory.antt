-- ===== src/Directory.antt =====
-- dokan-sys/src/dokany/dokan/directory.c: the enumeration of a directory.
pub mod Entries
pub mod Match
pub mod Results
pub mod Dispatch
