-- ===== src/Heap/Zones.antt =====
-- The zones of a pool in src/libpmemobj/backend_persistent.c: how many there are, how many chunks
-- each has, whether the chunk headers of one are consistent, and filling the bucket from one.
use nvml.Base.{
  ℕ, zero, suc, ◌+◌, ◌-◌, ◌*◌, ◌/◌, Bool, false, ltb, ◌==◌, ◌||◌, not, if◌then◌else◌, Option, none,
  some,
}
use nvml.Namespace.{u32, u64, sub64}
use nvml.Heap.{
  ChunkHeader, Heap, chunksize, max_chunk, chunk_header_magic, pool_header_size, chunk_headers_size,
  zone_size, header,
}
use nvml.Heap.Backend.{is_used, write_chunk_header, add_chunk}

-- ZONE_MIN_SIZE
abbrev pub zone_min_size : ℕ
zone_min_size = 32 * chunksize

abbrev pub zone_max_size : ℕ
zone_max_size = zone_size + max_chunk * chunksize

-- The loop of get_max_zones: each round but the last takes `zone_max_size`.
unfoldable pub max_zones_from : ℕ → ℕ → ℕ → ℕ
max_zones_from zero rawsize max_zone = max_zone
max_zones_from (suc fuel) rawsize max_zone =
    let taken = if ltb rawsize zone_max_size then rawsize else zone_max_size in
    let rest = max_zones_from fuel (rawsize - taken) (max_zone + 1) in
    if ltb zone_min_size rawsize then rest else max_zone

-- get_max_zones
unfoldable pub get_max_zones : ℕ → ℕ
get_max_zones rawsize = max_zones_from (rawsize / zone_max_size + 2) rawsize 0

-- get_zone_size_idx
unfoldable pub get_zone_size_idx : ℕ → ℕ → ℕ → ℕ
get_zone_size_idx zone_idx max_zone pool_size =
    let zone_raw_size = sub64 pool_size (u64 (zone_idx * zone_size)) in
    if ltb (zone_idx + 1) max_zone
    then max_chunk
    else u32 (sub64 zone_raw_size (pool_header_size + chunk_headers_size) / chunksize)

-- MAX_CHUNK_TYPE
abbrev pub max_chunk_type : ℕ
max_chunk_type = 4

-- The loop of check_zone at the chunk `i`.
unfoldable pub check_chunks : ℕ → (ℕ → ChunkHeader) → ℕ → ℕ → Bool
check_chunks zero chunks size_idx i = false
check_chunks (suc fuel) chunks size_idx i =
    let c = chunks i in
    let rest = check_chunks fuel chunks size_idx (u32 (i + c.size_idx)) in
    if not (ltb i size_idx)
    then i == size_idx
    else if not (c.magic == chunk_header_magic)
    then i == 0
    else if ltb max_chunk_type c.type || c.type == 0
    then false
    else if ltb size_idx c.size_idx
    then false
    else if c.size_idx == 0
    then false
    else rest

-- check_zone: each round goes on by one chunk or more.
unfoldable pub check_zone : (ℕ → ChunkHeader) → ℕ → Bool
check_zone chunks size_idx = check_chunks (size_idx + 1) chunks size_idx 0

-- The loop of persistent_fill_buckets at the chunk `i`. `none`: it does not end.
unfoldable pub fill_from : ℕ → ℕ → ℕ → ℕ → Heap → Option Heap
fill_from zero z size_idx i h = none
fill_from (suc fuel) z size_idx i h =
    let h' =
      if (header h.pool z i).magic == chunk_header_magic
      then h
      else write_chunk_header z i size_idx h in
    let c = header h'.pool z i in
    let rest =
      fill_from fuel z size_idx (u32 (i + c.size_idx))
        (if is_used c then h' else add_chunk z i h') in
    if ltb i size_idx then rest else some h

-- persistent_fill_buckets: the next zone.
unfoldable pub fill_buckets : Heap → Option Heap
fill_buckets h =
    let z = h.zones_exhausted in
    let size_idx = get_zone_size_idx z h.max_zone h.pool_size in
    fill_from (size_idx + 1) z size_idx 0 (record h { zones_exhausted = z + 1 })
