-- ===== src/Lib.antt =====
-- A model of parts of NVML, the library for byte-addressable persistent memory, with proofs.
--
-- libpmemblk keeps an array of blocks in a mapped file so that a power failure never tears a
-- block. Its callers enter by src/libpmemblk/blk.c, which picks a lane and calls the block
-- translation table (BTT) of src/libpmemblk/btt.c; the BTT does its I/O by callbacks into blk.c.
-- On the media an arena is an info block, a data area, a map from block numbers to blocks of the
-- data area, and the flog: a pair of entries for each lane, which is a free list and the log of
-- the lane's last write.
--
-- libpmemlog keeps a log in a mapped file: bytes are appended behind a write offset, which moves
-- once they are persistent.
--
-- Files, and the code they are about:
--   Namespace    the callbacks nsread, nswrite, nszero and nsmap of blk.c; the stores in their order
--   Checksum     util_checksum of src/common/util.c; Checksum/Laws has its properties
--   Btt          struct btt, arena, flog_runtime and btt_flog, and constants of btt_layout.h
--   Btt/Entry    map_entry_is_* and the masks of a map entry
--   Btt/Device   what an operation on one arena reads and writes
--   Btt/Info     arena_setf, set_arena_error
--   Btt/InfoBlock  read_info and the fields of struct btt_info
--   Btt/FreeList read_flog_pair, read_flogs, flog_update, NSEQ, invalid_lba
--   Btt/Map      map_lock, map_unlock
--   Btt/Block    btt_read, btt_write and map_entry_setf in the arena that was looked up
--   Btt/Table    lba_to_arena_lba, btt_read, btt_nlane and btt_nlba over all arenas
--   Btt/Geometry the arithmetic of write_layout: the number of arenas and the plan of one
--   Btt/Layout   read_arena, read_arenas, write_layout, read_layout and btt_init
--   Btt/Update   btt_write, btt_set_zero and btt_set_error over all arenas
--   Btt/Check    check_arena and btt_check
--   Btt/View     what an arena stands for: contents of blocks, layout and consistency
--   Btt/Array    what a table of arenas stands for: an array of blocks
--   Header       struct pool_hdr, util_convert_hdr, util_feature_check and util_is_zeroed of util.c
--   Blk          struct pmemblk, lane_enter and the calls of blk.c on an open pool
--   Blk/Open     pmemblk_map_common on a mapped file
--   Blk/File     pmemblk_create, pmemblk_open and pmemblk_check on a file that can be opened
--   Log          struct pmemlog of src/libpmemlog/log.h and the operations of log.c on a mapped pool
--   Log/Walk     pmemlog_walk, with the callback as a parameter
--   Log/View     what a log stands for: its bytes and its capacity
--   Log/Open     pmemlog_map_common on a mapped file
--   Log/File     pmemlog_check on a file that can be opened
--   Log/Crash    the steps in which an append reaches the media, and what a power failure leaves
-- Proofs about the log are in Log/Append, Log/Gather, Log/Chunks, Log/Ends, Log/Validate, Log/Create,
-- Log/File and Log/Crash, and its tests in Log/Tests. Proofs about an operation of the BTT are in Btt/Read, Btt/Lookup,
-- Btt/Flagged, Btt/Write, Btt/Mark, Btt/Reload and Btt/Crash, and the lemmas they share in
-- Btt/Access, Btt/Steps, Btt/Touched, Btt/Stores, Btt/Commit and Btt/Recover. Proofs about a table
-- of arenas are in Btt/Frame, which says what an arena does not depend on, Btt/Spread, Btt/Entire
-- and Btt/Array, those about checks in Btt/Check and those about layouts in Btt/Bounds and Btt/Returns. Blk/Laws,
-- Blk/Create and Header/Create are about pools. The modules called Tests hold a small arena, a
-- table, an info block, headers and a pool on which the theorems are applied.
--
-- Of libpmemobj the allocator's run-time state comes first: Container, the search
-- tree of src/libpmemobj/container_bst.c, with its proofs in Container/Remove, Container/Search and
-- Container/Laws and the order of its keys in Container/Order; and Bucket, the operations of
-- src/libpmemobj/bucket.c on a container that do not call the backend.
--
-- Heap models the allocator of libpmemobj over its persistent backend. A pool is headers,
-- information slots, and zones of chunks, each with a header; an allocation takes a chunk from a
-- bucket, splits it, stores its offset in a pointer and marks it as used, under a slot that says
-- what is going on. Opening a pool that was not closed undoes what a slot shows to be unfinished.
--   Heap           the structures of src/libpmemobj/backend_persistent.h, and a store as an event
--   Heap/Chunk     UID_PACK and its kin, get_chunk_by_offset
--   Heap/Backend   the operations of backend_persistent.c on chunks, slots and pointers
--   Heap/Alloc     pmalloc, pfree and prealloc of pmalloc.c, bucket_get_object of bucket.c and
--                  pool_recycle_object of pool.c over the backend
--   Heap/Recover   recover_info_slot and the functions that it chooses from
--   Heap/Zones     get_max_zones, get_zone_size_idx, check_zone, persistent_fill_buckets
--   Heap/Open      verify_header, set_pool_state, open_pmem_storage, close_pmem_storage
--   Heap/Arena     select_arena_id, select_thread_arena_slow and pool_select_arena of pool.c
--   Heap/Check     backend_persistent_consistency_check
-- Its proofs: Heap/Crash has what a power failure leaves of the stores of a call, and a rule to
-- prove a property of it store by store; Heap/View what a call sees of the pool; Heap/Settle
-- recovery at each point; Heap/Safely and Heap/Serve put these together for an allocation,
-- Heap/Atomic, Heap/Release and Heap/Resize for the three calls; Heap/Chain, Heap/Split and
-- Heap/Fill are about zones, Heap/Reopen, Heap/Closed and Heap/Reboot about opening and closing, and
-- Heap/Counts about sizes. In Heap the structures are apart from the content of chunks, a chunk
-- header and a pointer are stored whole, the words of a slot reach the media in any order until the
-- slot is persistent, and a call has its arena for itself.
--
-- State is passed explicitly: an operation takes a device (a namespace and an arena) and returns a
-- result with the device it leaves. A result is a value, an errno, or `hang` for a loop that would
-- spin. Offsets and counts wrap at 64 bits, and the products of uint32_t values at 32 bits, as in
-- C.
--
-- Bounds: the retry loop of btt_read runs on fuel 2, and as nothing else changes the map during a
-- call of the model the first round is enough. IsLaidOut asks that the data area is at most 4 GiB,
-- since beyond it the 32-bit product of btt_read and btt_write wraps (Btt/Overflow). In the BTT a
-- power failure cuts the sequence of stores at a 4-byte boundary of one store, the earlier stores
-- being durable, as the calls of pmem_persist and pmem_msync in nswrite make them. In the log
-- what is copied and stored reaches the media in any order until a call of pmem_persist or pmem_msync
-- has returned. The walk of a log has one round of fuel for each byte before the write offset, and
-- takes at least a byte in each round. The rounds of write_layout and read_layout have one unit of fuel for each 16 MiB of the
-- namespace, the least size of an arena, and one to stop. The loops over the chunks of a zone have one
-- round for each chunk and one to stop, and that of get_max_zones one for each zone and two more.
--
-- Not modelled: locks and threads, memory allocation, mapping and protection of files, logging,
-- the noop backend of libpmemobj, libvmem, libvmmalloc, the primitives of libpmem, the
-- vendored jemalloc, and the pmempool tool.
pub mod Base
pub mod Namespace
pub mod Checksum
pub mod Btt
pub mod Log
pub mod Header
pub mod Blk
pub mod Container
pub mod Bucket
pub mod Heap
