-- ===== src/Lib.antt =====
-- Verification of kevinfs, the file system under kevinfs/ that keeps its metadata and data as
-- key-value pairs and writes them to a key-value device as ordered group transactions.
--
-- The parts, and the files that model them:
-- Key: `DBT` (kevinfs/db.h), its helpers (kevinfs/lightfs_fs.h) and the key comparison `env_keycmp` /
--   `lightfs_keycmp`. Key/Order is the lexicographic order, Key/Compare compares the two. Key/Layout has the
--   key accessors of kevinfs/lightfs_fs.h and the functions of kevinfs/lightfs_super.c that build keys from
--   inode numbers; Key/Data is about the order of data keys.
-- RbTree: the descents that the code writes out over the kernel's red-black tree. The rebalancing,
--   `rb_erase`, `rb_next` and `rb_prev` of <linux/rbtree.h> are the record `RbLib`: operations with the
--   laws that the code relies on. Tests/Spine fills it.
-- RbKv: the store in memory of kevinfs/rbtreekv.c, with its mutex (a second lock by the holder blocks).
--   RbKv/Order has the order of the nodes and the map they stand for, RbKv/Cursor the cursor's calls,
--   RbKv/Walk its step, RbKv/Range its searches over RbTree/Range.
-- Bloom: kevinfs/bloomfilter.c and kevinfs/murmur3.c. A bit vector is a list of bytes.
-- Txn: the transactions of kevinfs/lightfs_txn_hdlr.c. Txn has the types and the size arithmetic,
--   Txn/Insert how a client fills a transaction, Txn/State the handler's state (`struct
--   __lightfs_txn_hdlr` of kevinfs/lightfs.h) and the operations on groups, Txn/Handler the thread
--   `lightfs_txn_hdlr_run`, one function for each pass between two labels. Txn/Run is the step relation
--   of clients, thread and workers, in any order. The callback of a synchronous group is two steps, up to
--   where `lightfs_c_txn_transfer_cb` gives `txn_spin` back and from there on, and any number of workers
--   may stand between the two; Txn/Transfer, Txn/Passes, Txn/SyncPasses, Txn/Step, Txn/Fifo, Txn/Ends and
--   Txn/Drain are the proofs over it.
--   Txn/Size and Txn/Filter are about one group.
-- Queue: kevinfs/lightfs_queue.c, with the semaphores as counts; an item is its index. Queue/Fifo has the
--   invariant and the view as a bounded first-in first-out buffer.
-- Cheeze: the request slots of kevinfs/cheeze/queue.c and blk.c, and the buffers of kevinfs/cheeze/cheeze.h.
-- Shm: the shared memory of kevinfs/cheeze/shm.c and `cheeze_io` of blk.c. The device is a parameter, a
--   function from a request and its buffer to the answer; it answers before the next request is made.
--   Shm/Receive is the loop of the receiver, Shm/Exchange one request and its answer.
-- Io: the commands of kevinfs/lightfs_io.c that go through a slot; Io/Issue has the steps that they share.
-- Wire: the layout of a transfer, from kevinfs/lightfs_io.h and `lightfs_io_transfer` of
--   kevinfs/lightfs_io.c. Wire/Within is about one write, Wire/Bounds about the whole.
--   Wire/Decode reads a transfer as the comment in lightfs_io.h lays it out; Wire/Appends, Wire/Emits,
--   Wire/Sends and Wire/Roundtrip compare the two, from one field to a group.
-- Bstore: kevinfs/lightfs_bstore.c and the block arithmetic of lightfs_fs.h. Bstore/Padding and
--   Bstore/Update are about `env_update_cb`, Bstore/Trunc about truncation, Bstore/Scan has
--   the reading of pages, with what the device has as a parameter, of which Bstore/Pages is about one page,
--   Bstore/Callbacks about one answer and Bstore/Read about the whole; Bstore/OnePage is the read of a
--   single page.
-- Reada: kevinfs/lightfs_reada.c and the search of the buffers in `lightfs_readpages`. Reada/Flush is about
--   the list of entries, Reada/Hit about what a hit copies.
-- Cache: kevinfs/lightfs_cache.c: the hash table, the trees of children, and in Cache/Cursor the cursor over
--   one. Cache/Chain is about one chain, Cache/Table about the table, Cache/Map about the invariant;
--   Cache/Change has the writes to items. Cache/Calls, WeakDel, Put, Insert, Del and Plain are about the calls.
-- Meta: the metadata calls of kevinfs/lightfs_bstore.c over the cache. Meta/Cached is about reading back,
--   Meta/Readdir and Meta/Listing about directories. Meta/Names has `lightfs_rename` and `lightfs_mknod` of
--   kevinfs/lightfs_super.c, which Meta/Rename is about, Meta/Lookup the calls that look names up, write
--   inodes back and remove them, which Meta/Evict is about, Meta/Counters the counters of
--   inode numbers, and Meta/Ino shows which numbers they give.
-- Base: names of the libraries, Boolean tests on native numbers, lists, outcomes.
-- Tests: concrete runs, and each theorem at concrete input.
--
-- The model follows the Makefile's switches: GROUP_COMMIT, WB, RB_LOCK and READA are on; TXN_BUFFER,
-- CHEEZE, TXN_TIME_CHECK and RB_CACHE are off. `uint32_t` and `uint16_t` fields wrap (`% 2 ^ 32`,
-- `% 2 ^ 16`). Memory is values: a buffer is the list of its bytes. Loops are recursion on lists or on
-- the rounds that are left. The rounds come from the count that the source's loop has; the loop of
-- `lightfs_bstore_scan_pages` has none, so there they are an argument. The handler's endless
-- loop is a step function and a run is a finite sequence of steps. Allocation is taken to succeed, but in
-- Key/Layout and Bstore, where a failed one is an argument.
--
-- Not modelled: the VFS's inodes, dentries and page cache, symbolic links, what the device does with a
-- request, and the issue of readahead.
pub mod Base
pub mod Bloom
pub mod Bstore
pub mod Cache
pub mod Cheeze
pub mod Io
pub mod Key
pub mod Meta
pub mod Queue
pub mod RbKv
pub mod RbTree
pub mod Reada
pub mod Shm
pub mod Tests
pub mod Txn
pub mod Wire
