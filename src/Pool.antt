-- ===== src/Pool.antt =====
-- dokan-sys/src/dokany/dokan/dokan_pool.c: the pools of objects that the user-mode library keeps, over
-- explicit addresses. Each operation takes the answers of the allocator, `malloc`, and the sizes of
-- the structures. A critical section makes the body of an operation one step.
pub mod Store
pub mod Lifetime
pub mod Buffers
pub mod OpenInfos
pub mod Reuse
pub mod Given
pub mod Batches
mod Tests
