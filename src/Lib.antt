-- ===== src/Lib.antt =====
-- Models and proofs for dokany: the user-mode library in dokan-sys/src/dokany/dokan, and parts of the
-- kernel driver in dokan-sys/src/dokany/sys. All paths are from the repository's root; those below are
-- relative to dokan-sys/src/dokany.
--
-- The driver keeps each request of the system (an IRP) in a list while the library takes it, calls the
-- file system's callbacks, and writes the answer to the event's buffer, which completes the request.
-- Modelled are:
--
-- * Vector, of dokan/dokan_vector.c and dokan_vector.h: the growable array of bytes that the other
--   parts keep their items in. DokanVector_Grow is `grow`, the pushes are `push_back`, `push_front`
--   and `push_back_array`, and so on. A block of memory is a list of cells of the item's size; an
--   access outside of the block is `fault`. Vector/Contents has the list that a vector holds.
-- * NameExpression, of DokanIsNameInExpression in dokan/directory.c: `scan` is the outer loop, from
--   the current character of the expression on; the recursive calls of the C function are its calls
--   with the rest of the expression and of the name. A read behind the name's final null is `fault`.
-- * Directory/Entries, of DokanFillDirectoryInformation and the functions that it calls, in the same
--   file: an entry is the record of its fields.
-- * Directory/Match, of MatchFiles in the same file: `match_round` is the body of its loop, `finish`
--   what follows it. It reads the directory list through `get_item` of Vector, and checks names by
--   `is_name_in_expression`.
-- * Pool, of dokan/dokan_pool.c: the pools of objects, over a heap of addresses. Pool/Store has the state
--   and the steps that all pops and pushes share (`acquire`, `release`), Pool/Buffers the pools of
--   batches, events and event results, Pool/OpenInfos those of DOKAN_OPEN_INFO and of directory lists,
--   Pool/Lifetime InitializePool and CleanupPool.
-- * Event, of dokan/dokan.c, close.c and cleanup.c: the block of an event's result
--   (`create_dispatch_common`, `free_io_event_result`), and in Event/Close the use count of a
--   DOKAN_OPEN_INFO (`setup_io_event_for_processing`, `release_dokan_open_info`) with DispatchClose and
--   DispatchCleanup.
-- * Directory/Results and Directory/Dispatch, of the rest of dokan/directory.c:
--   AddMissingCurrentAndParentFolder, WriteDirectoryResults, EndFindFilesCommon and
--   DispatchDirectoryInformation. The callbacks of the file system are functions that give the files
--   passed to DokanFillFileData, and a status.
-- * Create, of dokan/create.c: `dispatch_create` is DispatchCreate, with the calls of the file system as a
--   function of the calls before.
-- * Irps, of sys/event.c, sys/notification.c and sys/timeout.c: the driver's list PendingIrp. Irps/State
--   has the fields of an IRP and of an IRP_ENTRY as functions of their addresses; Irps/Register is
--   RegisterPendingIrpMain and DokanRegisterPendingIrp, Irps/Cancel the two cancel routines with
--   IoCancelIrp, which takes a routine and runs it later, Irps/Release is MoveIrpList, ReleasePendingIrp
--   and their use by DokanEventRelease, Irps/Timeout is ReleaseTimeoutPendingIrp and
--   DokanResetPendingIrpTimeout, and Irps/Complete is DokanCompleteIrp with DokanDispatchCompletion. What
--   the completion functions of the major functions copy to an IRP is left out: it is completed with the
--   reply, unless the status is STATUS_PENDING, which is that of the reply but for the errors of these
--   functions (`error_status`, a parameter). Irps/Steps puts the operations together as a step relation.
-- * Fcb, of sys/util/fcb.c: the file control blocks of a volume. Fcb/Table is DokanGetFCB and
--   DokanRenameFcb, Fcb/Free is DokanFreeFCB, in two steps, Fcb/Garbage is the garbage list with
--   DokanDeleteFcb, and Fcb/Collector is AgeAndDeleteFcbGarbage. The AVL table is Windows', and is a
--   parameter (TableOps); the answers of the memory manager are arguments. Fcb/Steps puts the steps
--   together.
-- * IrpBuffer, of sys/util/irp_buffer_helper.c: the sizes and the pointers of an IRP's buffers,
--   PrepareOutputWithSize, ExtendOutputBufferBySize and AppendVarSizeOutputString. Pointers are numbers, and
--   each block that is written is recorded.
-- * UnicodeString, of sys/util/str.c: StartsWith and the searches for a character. A read outside of a
--   buffer is `fault`.
--
-- A critical section is one step, and a handler runs without another one in between; in Irps the
-- completion of the IRPs that an operation has claimed belongs to its step.
--
-- Sizes of type size_t are native numbers below 2 ^ 64, with their wrap-around written out; the theorems
-- on the vector ask that a push computes no size that wraps. The counts of MatchFiles and the sizes of
-- entries are not wrapped: a name has less than 260 characters. No function needs fuel: each loop
-- runs over a list, over the rest of one, or over the items of a vector.
--
-- malloc and realloc are a parameter that tells whether a request of so many bytes is granted, and
-- towupper and the sizes of structures that depend on the Windows SDK are parameters. Not modelled are
-- the rest of the kernel driver, the other requests of the user-mode library, the FUSE layer, the
-- network provider, the control tool, the samples and the Rust crates: most of it is calls of Windows
-- or of the C library. The counters of the driver's VolumeMetrics are left out, and the number of FCBs
-- that a pass counts is not wrapped.
pub mod Prelude
pub mod Memory
pub mod Vector
pub mod NameExpression
pub mod Directory
pub mod Pool
pub mod Event
pub mod Create
pub mod Irps
pub mod Fcb
pub mod IrpBuffer
pub mod UnicodeString
