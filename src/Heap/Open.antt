-- ===== src/Heap/Open.antt =====
-- Opening and closing a pool in src/libpmemobj/backend_persistent.c: its headers and its state. A
-- header is its 1024 bytes. The stores of headers are not among the events of the heap.
use nvml.Base.{
  ℕ, zero, suc, ◌+◌, List, [], ◌∷◌, ◌++◌, replicate, Bool, true, false, ◌==◌, ◌&&◌, if◌then◌else◌,
}
use nvml.Base.Memory.{word, le32, le64}
use nvml.Btt.InfoBlock.{same_at}
use nvml.Checksum.{put, field64, insert_checksum, verify_checksum}
use nvml.Heap.{Heap, empty_slot, set_at, max_chunk, chunksize, max_info_slot}
use nvml.Heap.Recover.{recover_info_slot}
use nvml.Heap.Zones.{get_max_zones}

-- "MEMORY_POOL_HDR\0"
abbrev pub pool_signature : List ℕ
pool_signature = 77 ∷ 69 ∷ 77 ∷ 79 ∷ 82 ∷ 89 ∷ 95 ∷ 80 ∷ 79 ∷ 79 ∷ 76 ∷ 95 ∷ 72 ∷ 68 ∷ 82 ∷ 0 ∷ []

abbrev pub state_off : ℕ
state_off = 20

abbrev pub checksum_off : ℕ
checksum_off = 1016

abbrev pub state_open : ℕ
state_open = 1

abbrev pub state_closed : ℕ
state_closed = 2

-- verify_header
unfoldable pub verify_header : List ℕ → Bool
verify_header hdr = verify_checksum hdr checksum_off && same_at hdr 0 pool_signature

abbrev pub with_primary : List ℕ → Heap → Heap
with_primary hdr h = record h { pool = record h.pool { primary_header = hdr } }

-- recover_primary_header: the backups of `left` zones from the zone `i` on are looked at.
unfoldable pub recover_primary_header : ℕ → ℕ → Heap → Bool × Heap
recover_primary_header zero i h = (false, h)
recover_primary_header (suc left) i h =
    let rest = recover_primary_header left (i + 1) h in
    if verify_header (h.pool.zone i).backup_header
    then (true, with_primary (h.pool.zone i).backup_header h)
    else rest

-- zero_info_slots
unfoldable pub zero_info_slots : Heap → Heap
zero_info_slots h = record h { pool = record h.pool { info_slot = λ i. empty_slot } }

-- The header that write_primary_pool_header makes.
unfoldable pub fresh_header : ℕ → List ℕ
fresh_header pool_size =
    insert_checksum
      (pool_signature
        ++ (le32 0
            ++ (le32 state_closed
                ++ (le64 1
                    ++ (le64 0
                        ++ (le64 pool_size
                            ++ (le64 chunksize ++ (le64 max_chunk ++ replicate 960 0))))))))
      checksum_off

-- write_backup_pool_headers, to `left` zones from the zone `i` on.
unfoldable pub write_backups : ℕ → ℕ → Heap → Heap
write_backups zero i h = h
write_backups (suc left) i h = write_backups left (i + 1) (record h {
  pool = record h.pool {
    zone = set_at h.pool.zone i (record (h.pool.zone i) { backup_header = h.pool.primary_header });
  };
})

abbrev pub write_backup_pool_headers : Heap → Heap
write_backup_pool_headers h = write_backups h.max_zone 0 h

-- write_pool_layout
unfoldable pub write_pool_layout : Heap → Heap
write_pool_layout h =
    write_backup_pool_headers (with_primary (fresh_header h.pool_size) (zero_info_slots h))

-- set_pool_state
unfoldable pub with_state : ℕ → List ℕ → List ℕ
with_state state hdr = insert_checksum (put hdr state_off (le32 state)) checksum_off

unfoldable pub set_pool_state : ℕ → Heap → Heap
set_pool_state state h =
    write_backup_pool_headers (with_primary (with_state state h.pool.primary_header) h)

-- can_open_pool
unfoldable pub can_open_pool : Heap → Bool
can_open_pool h =
    let hdr = h.pool.primary_header in
    field64 hdr 40 == h.pool_size
    && (field64 hdr 24 == 1 && (field64 hdr 48 == chunksize && field64 hdr 56 == max_chunk))

-- The loop over the slots: `left` of them from the slot `i` on.
unfoldable pub recover_slots : ℕ → ℕ → Heap → Heap
recover_slots zero i h = h
recover_slots (suc left) i h = recover_slots left (i + 1) (recover_info_slot i h)

-- The switch on the state of the pool.
unfoldable pub enter_pool : Heap → Bool × Heap
enter_pool h =
    let state = word h.pool.primary_header state_off in
    if state == state_closed
    then (true, set_pool_state state_open h)
    else if state == state_open
    then (true, write_backup_pool_headers (recover_slots max_info_slot 0 h))
    else (false, h)

-- What is tried when the primary header is not valid.
abbrev pub find_header : Heap → Bool × Heap
find_header h =
    if verify_header h.pool.primary_header then (true, h) else recover_primary_header h.max_zone 0 h

-- open_pmem_storage
unfoldable pub open_pmem_storage : Heap → Bool × Heap
open_pmem_storage h =
    let (pool_valid, found) = find_header (record h { max_zone = get_max_zones h.pool_size }) in
    if pool_valid
    then if can_open_pool found then enter_pool found else (false, found)
    else enter_pool (write_pool_layout found)

-- close_pmem_storage
unfoldable pub close_pmem_storage : Heap → Heap
close_pmem_storage h = set_pool_state state_closed h
