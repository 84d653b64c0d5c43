-- ===== src/Heap/Chunk.antt =====
-- Offsets of chunks and identifiers of objects in src/libpmemobj/backend_persistent.c.
use nvml.Base.{ℕ, ◌+◌, ◌*◌, ◌/◌, ◌%◌, ◌^◌, ◌<◌, ◌≡◌, ap, ◌∙◌, bit_and, bit_or, arith}
use nvml.Base.Bits.{bit_and_high, bit_and_low, bit_or_disjoint}
use nvml.Namespace.{u32, u64, sub64}
use nvml.Heap.{chunksize, max_chunk, max_info_slot, pool_header_size, chunk_headers_size, zone_size}

-- uint16_t arithmetic
abbrev pub u16 : ℕ → ℕ
u16 n = n % 2 ^ 16

-- UID_PACK, UID_CHUNK_IDX and UID_ZONE_IDX
unfoldable pub uid_pack : ℕ → ℕ → ℕ
uid_pack c z = bit_or z (u32 (c * 2 ^ 16))

unfoldable pub uid_chunk_idx : ℕ → ℕ
uid_chunk_idx u = u16 (bit_and u 4294901760 / 2 ^ 16)

unfoldable pub uid_zone_idx : ℕ → ℕ
uid_zone_idx u = u16 (bit_and u 65535)

-- (uint64_t)&zone[z].chunk_data[c] - (uint64_t)pool
unfoldable pub data_offset : ℕ → ℕ → ℕ
data_offset z c =
    pool_header_size
    + 32 * max_info_slot
    + z * zone_size
    + pool_header_size
    + chunk_headers_size
    + c * chunksize

-- get_chunk_by_offset: the zone and the chunk.
unfoldable pub get_chunk_by_offset : ℕ → ℕ × ℕ
get_chunk_by_offset off =
    let rest = sub64 off (pool_header_size + 32 * max_info_slot) in
    let zone_idx = u16 (rest / zone_size) in
    let zone_offset =
      sub64 (sub64 (sub64 rest (u64 (zone_idx * zone_size))) pool_header_size) chunk_headers_size in
    (zone_idx, u16 (zone_offset / chunksize))

pub uid_zone_idx-uid_pack : (c z : ℕ) → c < 2 ^ 16 → z < 2 ^ 16 → uid_zone_idx (uid_pack c z) ≡ z
unfolding uid_zone_idx uid_pack
uid_zone_idx-uid_pack c z hc hz =
    let shifted : u32 (c * 2 ^ 16) ≡ c * 2 ^ 16 = omega arith in
    let packed = ap (bit_or z) shifted ∙ bit_or_disjoint 16 z c hz in
    omega (arith, ap (λ t. bit_and t 65535) packed, bit_and_low 16 (z + c * 2 ^ 16))

pub uid_chunk_idx-uid_pack : (c z : ℕ) → c < 2 ^ 16 → z < 2 ^ 16 → uid_chunk_idx (uid_pack c z) ≡ c
unfolding uid_chunk_idx uid_pack
uid_chunk_idx-uid_pack c z hc hz =
    let shifted : u32 (c * 2 ^ 16) ≡ c * 2 ^ 16 = omega arith in
    let packed = ap (bit_or z) shifted ∙ bit_or_disjoint 16 z c hz in
    let quotient : (z + c * 2 ^ 16) / 2 ^ 16 ≡ c = omega arith in
    omega (
      arith,
      ap (λ t. bit_and t 4294901760) packed,
      bit_and_high 16 (z + c * 2 ^ 16) 65535,
      ap (λ t. bit_and t 65535) quotient,
      bit_and_low 16 c,
    )

-- The chunk at an offset is the one whose data stands there, in a pool of up to 65536 zones.
pub get_chunk_by_offset-data_offset :
    (z c : ℕ) → z < 2 ^ 16 → c < max_chunk → get_chunk_by_offset (data_offset z c) ≡ (z, c)
unfolding get_chunk_by_offset data_offset
get_chunk_by_offset-data_offset z c hz hc = ground arith
