-- ===== src/Fcb.antt =====
-- dokan-sys/src/dokany/sys/util/fcb.c: the file control blocks of a volume, and their garbage
-- collection.
pub mod State
pub mod Garbage
pub mod Table
pub mod Free
pub mod Collector
pub mod Passes
pub mod Sweeps
pub mod Cycles
pub mod Unused
pub mod Collections
pub mod Lookups
pub mod Openings
pub mod Steps
pub mod InUse
pub mod Races
pub mod Reuse
mod Tests
