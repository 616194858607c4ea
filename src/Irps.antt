-- ===== src/Irps.antt =====
-- dokan-sys/src/dokany/sys/event.c, notification.c and timeout.c: the list of pending IRPs of a device,
-- and the ways in which an IRP of the list is completed.
pub mod State
pub mod Register
pub mod Cancel
pub mod Release
pub mod Timeout
pub mod Complete
pub mod Weight
pub mod Loops
pub mod Payments
pub mod Selections
pub mod Searches
pub mod Steps
pub mod Preserves
pub mod Cancels
pub mod Unlinks
pub mod Routines
pub mod Resets
pub mod Registers
pub mod Progress
pub mod Once
pub mod Drained
pub mod Rounds
pub mod Batches
pub mod Deadlines
mod Tests
