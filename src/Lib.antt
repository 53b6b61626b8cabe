-- ===== src/Lib.antt =====
-- A model of the core of claosi, a stream processing system on two layers, the Linux kernel and a
-- process in user space, which register data models, pose queries on them and send each other
-- messages through shared memory. The same C code is compiled for both layers.
--
-- The parts and the files that model them:
--
-- - Ring: the ring buffer by which one layer sends messages to the other, lib/communication.c and
--   include/communication.h. `Ringbuffer` and `LayerMessage` are the structures; `Sender` adds the
--   static counter `writeOps` and records what `slcfree` and the error message were given.
--   ringBufferInit is `init_buffer` and `init_sender`, ringBufferReadBegin and ringBufferReadEnd are
--   `ring_buffer_read_begin` and `ring_buffer_read_end`, ringBufferWrite is `ring_buffer_write`,
--   with its loop `sweep` on fuel: one round for each slot. `run` and `replies` follow a history of
--   the calls of both layers. Children: Inv has the representation invariant, Sweep, Reclaim and
--   Memory the reclamation of payloads, Refine the abstract queue.
-- - Model: the data model, a tree of nodes, include/datamodel.h and lib/datamodel.c. A parent
--   pointer is the place in the tree. Lookup has getDescription; Walk has the traversal that the
--   functions of the file share, on fuel: one round for each node; Syntax has checkDataModelSyntax;
--   Compact has calcDatamodelSize, copyNodeAdjacent and copyAndCollectDatamodel, on fuel of two
--   rounds for each node, one to copy it and one to leave it; Types has resolveType, on any fuel, for
--   a type that refers to itself is never found, and getComplexTypeSize, getDataModelSize and
--   getComplexTypeOffset; Merge has mergeDataModel as far as it only tests whether a merge is
--   possible, on any fuel; Copy has copyNode, copySubtree and addSubtree, on fuel of two rounds for
--   each node; Insert has mergeDataModel as it changes the present model, a cursor in which stands
--   for curNodeOld; Send has sendDatamodel and the loop that repeats it; Delete has
--   deleteSubtree and freeNode, on trees whose child pointers may be NULL. The results say which fuel
--   is enough.
-- - Query: queries, chains of operators, include/query.h and lib/query.c. Syntax has
--   checkQuerySyntax and checkQueries; Compact has calcQuerySize, copyOperatorAdjacent,
--   copyAndCollectQuery and rewriteQueryAddress; Registry has addQueries, delQueries and
--   resolveQuery, which write into the data model (Registry.Paths) and cause effects, among them
--   the releases and acquisitions of the lock around `activate` and `deactivate`; Filter has
--   applyPredicate and applyFilter, on fuel: one round more than there are tuples; Execute has
--   applySelect, sendQueryContinue and executeQuery, on the same fuel, with doJoin as an argument, and
--   Execute.Reads fills the reader of tuples by getMemberPointer.
-- - Tuple: tuples, lib/resultset.c and include/resultset.h. `walk` is the loop that the functions of
--   resultset.c share, with curOffset and prevOffset, on fuel of one round for each node; it collects
--   what a function does at each node, with memory read by functions of the address. Items has
--   getItemSize, getTupelSize and freeItem, Collect has copyAndCollectAdditionalMem; Spans describes
--   the walk by recursion. Member has getMemberPointer; Bytes is a memory of bytes, on which Access
--   has the functions that set and get items, and Access.Slots those for the slots of arrays; Build
--   has initTupel, allocItem and addItem; Whole has copyAndCollectTupel, Merge mergeTuple and
--   deleteItem.
-- - Layer: the two layers, lib/kernel/libkernel.c and lib/userspace/libuserspace-layer.c. Queue has
--   enqueueQuery, delPendingQuery and queryExecutorWork of the kernel, as steps of histories: each runs
--   under `listLock`. Dispatch has a round of commThreadWork of both, which hands a message of the
--   ring buffer to the functions of the other parts, and the flush of user space at the end; its fuel
--   is that of the loops it calls.
-- - Api: the interface, lib/api.c. Broadcast has eventOccuredBroadcast and
--   objectChangedBroadcast, Register has registerProvider, registerQuery and unregisterQuery,
--   Unregister has unregisterProvider and the unicast functions; they compose the parts above.
-- - Errors: the error codes of include/common.h. Prelude: shared names and lemmas, C strings
--   (Prelude.Names) and signed counters (Prelude.Int).
--
-- The parts interact as in the source: the checks and the registration look up names by
-- `get_description`, a registered query is collected and sent through the ring buffer.
--
-- Numbers are natural numbers; addresses are rewritten modulo 2 ^ 64 and the query counter wraps at
-- 2 ^ 32. The sizes of the structures, which the platform decides, are parameters, as are the code of
-- the layer, whether a message can be sent, which allocations succeed, and a reader of the members of
-- tuples. Allocation in `getDescription` is taken to succeed, a bit set of object events not to be
-- negative, and the buffer of a name to be filled up with zeros.
--
-- A signed int is the two's complement of the bytes it takes, the lowest first. An address within the
-- memory that is there does not wrap. The number of items of a tuple is taken to be below 2 ^ 16.
--
-- Not modelled: joins (lib/query.c, doJoin and buildSelectorsArray), freeOperator, freeQuery and
-- checkAndSanitizeElementPath (lib/query.c); the rest of tuples (lib/resultset.c: copyTupel,
-- rewriteTupleAddress and freeTupel); freeDataModel and rewriteDatamodelAddress
-- (lib/datamodel.c); initSLC, destroySLC and initSLCDatamodel (lib/api.c); the queue of user
-- space (lib/userspace), whose insertion, counter and semaphore are changed one after the other; timers,
-- threads and shared memory (lib/kernel, lib/userspace), all of which are left for later; liballoc
-- (lib/liballoc.c), a library of another author; providers, tests and the build.
pub mod Prelude
pub mod Errors
pub mod Ring
pub mod Model
pub mod Query
pub mod Tuple
pub mod Layer
pub mod Api
