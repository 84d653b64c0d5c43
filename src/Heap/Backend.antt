-- ===== src/Heap/Backend.antt =====
-- The operations of src/libpmemobj/backend_persistent.c on chunk headers, information slots and
-- pointers, and the part of arena.c that sets and clears the slot of an arena. Locks are left out:
-- a call has its arena for itself. A request for memory of the process does not fail.
use nvml.Base.{
  ℕ, ◌+◌, ◌-◌, ◌*◌, Bool, true, false, bit_and, bit_or, ltb, ◌==◌, replicate, if◌then◌else◌,
}
use nvml.Base.Memory.{load, get64}
use nvml.Namespace.{u32}
use nvml.Bucket.{add_object}
use nvml.Heap.{
  ChunkHeader, InfoSlot, BackendPool, Block, slot_stored, header_stored, word_stored,
  content_stored, Heap, chunksize, chunk_header_magic, flag_used, GuardType, unknown, malloc,
  realloc, free, type_number, empty_slot, header, persist,
}
use nvml.Heap.Chunk.{uid_pack, uid_chunk_idx, uid_zone_idx, data_offset, get_chunk_by_offset}

-- The header that write_chunk_header makes, with its magic number.
abbrev pub base_header : ℕ → ℕ → ChunkHeader
base_header magic size = record {
  magic = magic;
  type_specific = 0;
  type = 1;
  flags = 0;
  size_idx = size;
}

-- write_chunk_header
unfoldable pub write_chunk_header : ℕ → ℕ → ℕ → Heap → Heap
write_chunk_header z c size h =
    let unmarked = persist (header_stored z c (base_header 0 size)) h in
    persist (header_stored z c (base_header chunk_header_magic size)) unmarked

-- set_chunk_size
unfoldable pub set_chunk_size : ℕ → ℕ → ℕ → Heap → Heap
set_chunk_size z c new_size h =
    persist (header_stored z c (record (header h.pool z c) { size_idx = new_size })) h

-- c->flags & CHUNK_FLAG_USED
abbrev pub is_used : ChunkHeader → Bool
is_used hdr = if bit_and hdr.flags flag_used == 0 then false else true

abbrev pub with_used : ChunkHeader → ChunkHeader
with_used hdr = record hdr { flags = bit_or hdr.flags flag_used }

abbrev pub without_used : ChunkHeader → ChunkHeader
without_used hdr = record hdr { flags = bit_and hdr.flags (65535 - flag_used) }

-- set_chunk_flag with CHUNK_FLAG_USED
unfoldable pub set_chunk_flag : ℕ → ℕ → Heap → Bool × Heap
set_chunk_flag z c h =
    if is_used (header h.pool z c)
    then (false, h)
    else (true, persist (header_stored z c (with_used (header h.pool z c))) h)

-- clear_chunk_flag with CHUNK_FLAG_USED
unfoldable pub clear_chunk_flag : ℕ → ℕ → Heap → Bool × Heap
clear_chunk_flag z c h =
    if is_used (header h.pool z c)
    then (true, persist (header_stored z c (without_used (header h.pool z c))) h)
    else (false, h)

-- add_chunk, and bucket_add_object on a whole `struct bucket_object`.
unfoldable pub add_block : Block → Heap → Heap
add_block obj h = record h {
  bucket = add_object h.bucket (record { size_idx = obj.size_idx; unique_id = obj.unique_id });
}

-- The free object that the chunk `c` of the zone `z` is.
abbrev pub block_of : ℕ → ℕ → ChunkHeader → Block
block_of z c hdr = record {
  real_size = u32 (chunksize * hdr.size_idx);
  data_offset = data_offset z c;
  size_idx = hdr.size_idx;
  unique_id = uid_pack c z;
}

unfoldable pub add_chunk : ℕ → ℕ → Heap → Heap
add_chunk z c h = add_block (block_of z c (header h.pool z c)) h

-- The chunk is made smaller, and what is left of it a chunk of its own.
unfoldable pub split_chunk : ℕ → ℕ → ℕ → Heap → Heap
split_chunk z c size h =
    let old = (header h.pool z c).size_idx in
    let next = u32 (c + size) in
    let split = set_chunk_size z c size (write_chunk_header z next (old - size) h) in
    if ltb size old then add_chunk z next split else h

-- persistent_init_bucket_obj for the object `id`, of which `units` are wanted.
unfoldable pub init_bucket_obj : ℕ → ℕ → Heap → Block × Heap
init_bucket_obj id units h =
    let c = uid_chunk_idx id in
    let z = uid_zone_idx id in
    let h' = split_chunk z c units h in
    let size = (header h'.pool z c).size_idx in
    (
      record {
        real_size = u32 (size * chunksize);
        data_offset = data_offset z c;
        size_idx = size;
        unique_id = id;
      },
      h',
    )

-- persistent_set_bucket_obj_state with BUCKET_OBJ_STATE_ALLOCATED
unfoldable pub mark_allocated : Block → Heap → Bool × Heap
mark_allocated obj h =
    let c = uid_chunk_idx obj.unique_id in
    let z = uid_zone_idx obj.unique_id in
    set_chunk_flag z c (persist (content_stored (data_offset z c) (replicate obj.real_size 0)) h)

-- persistent_set_bucket_obj_state with BUCKET_OBJ_STATE_FREE
unfoldable pub mark_free : Block → Heap → Bool × Heap
mark_free obj h = clear_chunk_flag (uid_zone_idx obj.unique_id) (uid_chunk_idx obj.unique_id) h

abbrev pub no_block : Block
no_block = record { real_size = 0; data_offset = 0; size_idx = 0; unique_id = 0 }

-- persistent_locate_bucket_obj into an object of zeros.
unfoldable pub locate_bucket_obj : ℕ → Heap → Bool × Block
locate_bucket_obj off h =
    let (z, c) = get_chunk_by_offset off in
    let hdr = header h.pool z c in
    if hdr.magic == chunk_header_magic
    then if is_used hdr
      then (true, record (block_of z c hdr) { data_offset = off })
      else (false, no_block)
    else (false, no_block)

-- persistent_copy_content
unfoldable pub copy_content : Block → Block → Heap → Heap
copy_content dest src h =
    persist (content_stored dest.data_offset (load h.pool.content src.data_offset src.real_size)) h

-- *ptr
abbrev pub pointer : BackendPool → ℕ → ℕ
pointer p ptr = get64 p.content ptr

-- persistent_set_alloc_ptr
unfoldable pub set_alloc_ptr : ℕ → ℕ → Heap → Heap
set_alloc_ptr ptr value h = persist (word_stored ptr value) h

-- The functions of the table set_slot.
abbrev pub set_slot : GuardType → ℕ → ℕ → InfoSlot → InfoSlot
set_slot unknown ptr value s = s
set_slot malloc ptr value s = record s { first = ptr }
set_slot realloc ptr value s = record s { first = ptr; second = value }
set_slot free ptr value s = record s { first = ptr }

-- The slot that persistent_set_guard makes of `s`.
abbrev pub guarded : GuardType → ℕ → ℕ → InfoSlot → InfoSlot
guarded type ptr value s = set_slot type ptr value (record s { type = type_number type })

-- persistent_set_guard for the arena `id`. The type and the addresses are stored one after another and
-- persisted together: Torn in Heap/Crash lets any of them be missing.
unfoldable pub set_guard : ℕ → GuardType → ℕ → Heap → Heap
set_guard id type ptr h =
    persist (slot_stored id (guarded type ptr (pointer h.pool ptr) (h.pool.info_slot id))) h

-- persistent_clear_guard, which a power failure may leave with any of the words zero.
unfoldable pub clear_guard : ℕ → Heap → Heap
clear_guard id h = persist (slot_stored id empty_slot) h
