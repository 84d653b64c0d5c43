-- ===== src/Heap.antt =====
-- src/libpmemobj/backend_persistent.h and the bucket that src/libpmemobj/pool.c keeps: the memory
-- pool of the allocator and what it stores in it. A chunk header or a 64-bit word lies in one
-- cache line and is taken to reach the media whole, and an information slot word by word. The structures are apart from
-- the content, which is addressed by the offset from the start of the pool.
pub mod Chunk
pub mod Backend
pub mod Alloc
pub mod Recover
pub mod Crash
pub mod View
pub mod Settle
pub mod Safely
pub mod Serve
pub mod Atomic
pub mod Release
pub mod Resize
pub mod Zones
pub mod Counts
pub mod Chain
pub mod Split
pub mod Fill
pub mod Open
pub mod Reopen
pub mod Check
pub mod Closed
pub mod Arena
pub mod Reboot
mod Tests
mod ZoneTests
use nvml.Base.{ℕ, ◌+◌, ◌*◌, ◌%◌, ◌^◌, List, [], ◌∷◌, ◌++◌, ◌==◌, if◌then◌else◌}
use nvml.Base.Memory.{Mem, store, get64, le64}
use nvml.Bucket.{Bucket}

-- `struct backend_chunk_header`
pub record ChunkHeader : Type 0 where
  pub magic : ℕ
  pub type_specific : ℕ
  pub type : ℕ
  pub flags : ℕ
  pub size_idx : ℕ

-- `struct backend_info_slot` with the 64-bit words of its data: `first` is destination_addr or
-- free_addr, `second` is old_alloc or reserved_e[0], and `third` the last word.
pub record InfoSlot : Type 0 where
  pub type : ℕ
  pub reserved : ℕ
  pub first : ℕ
  pub second : ℕ
  pub third : ℕ

-- `struct backend_zone`, less the data of its chunks. The header is its 1024 bytes.
pub record Zone : Type 0 where
  pub backup_header : List ℕ
  pub chunk_header : ℕ → ChunkHeader

-- `struct backend_pool`
pub record BackendPool : Type 0 where
  pub primary_header : List ℕ
  pub info_slot : ℕ → InfoSlot
  pub zone : ℕ → Zone
  pub content : Mem

-- `struct bucket_object`, all of it.
pub record Block : Type 0 where
  pub real_size : ℕ
  pub data_offset : ℕ
  pub size_idx : ℕ
  pub unique_id : ℕ

-- A store that the backend makes and waits for; that of a slot is one for each word, with one wait.
pub data Event : Type 0 where
  slot_stored : ℕ → InfoSlot → Event
  header_stored : ℕ → ℕ → ChunkHeader → Event
  word_stored : ℕ → ℕ → Event
  content_stored : ℕ → List ℕ → Event

-- The pool and its backend, the bucket that all arenas share, and the stores so far.
pub record Heap : Type 0 where
  pub pool : BackendPool
  pub pool_size : ℕ
  pub max_zone : ℕ
  pub zones_exhausted : ℕ
  pub bucket : Bucket
  pub events : List Event

abbrev pub chunksize : ℕ
chunksize = 262144

abbrev pub max_chunk : ℕ
max_chunk = 65535

abbrev pub max_info_slot : ℕ
max_info_slot = 1024

abbrev pub chunk_header_magic : ℕ
chunk_header_magic = 50160

-- CHUNK_FLAG_USED
abbrev pub flag_used : ℕ
flag_used = 1

-- Sizes of `struct backend_pool_header` and of the chunk headers of a zone.
abbrev pub pool_header_size : ℕ
pool_header_size = 1024

abbrev pub chunk_headers_size : ℕ
chunk_headers_size = 16 * max_chunk

-- The size of `struct backend_zone`.
abbrev pub zone_size : ℕ
zone_size = pool_header_size + chunk_headers_size + chunksize * max_chunk

-- The values of `enum info_slot_type` and of `enum guard_type`.
pub data GuardType : Type 0 where
  unknown malloc realloc free : GuardType

abbrev pub type_number : GuardType → ℕ
type_number unknown = 0
type_number malloc = 1
type_number realloc = 2
type_number free = 3

abbrev pub empty_slot : InfoSlot
empty_slot = record { type = 0; reserved = 0; first = 0; second = 0; third = 0 }

abbrev pub set_at {ℓ} : {A : Type ℓ} → (ℕ → A) → ℕ → A → ℕ → A
set_at f i v j = if j == i then v else f j

abbrev pub header : BackendPool → ℕ → ℕ → ChunkHeader
header p z c = (p.zone z).chunk_header c

-- The pool after a store.
unfoldable pub apply : Event → BackendPool → BackendPool
apply (slot_stored i s) p = record p { info_slot = set_at p.info_slot i s }
apply (header_stored z c hdr) p = record p {
  zone =
      set_at p.zone z (record (p.zone z) { chunk_header = set_at (p.zone z).chunk_header c hdr });
}
apply (word_stored off v) p = record p { content = store p.content off (le64 v) }
apply (content_stored off bs) p = record p { content = store p.content off bs }

-- A store and persist, pmemset or pmemcpy.
unfoldable pub persist : Event → Heap → Heap
persist e h = record h { pool = apply e h.pool; events = h.events ++ (e ∷ []) }
