-- ===== src/Heap/Check.antt =====
-- backend_persistent_consistency_check of src/libpmemobj/backend_persistent.c.
use nvml.Base.{ℕ, zero, suc, ◌+◌, Bool, true, false, ltb, ◌==◌, ◌&&◌, ◌||◌, not, if◌then◌else◌}
use nvml.Heap.{InfoSlot, BackendPool, max_info_slot, header}
use nvml.Heap.Zones.{get_max_zones, get_zone_size_idx, check_zone}
use nvml.Heap.Open.{verify_header}

-- check_slot_alloc and check_slot_free
abbrev pub check_slot_one : InfoSlot → ℕ → Bool
check_slot_one s pool_size =
    if not (s.reserved == 0) || (not (s.second == 0) || not (s.third == 0))
    then false
    else not (ltb pool_size s.first)

abbrev pub check_slot_realloc : InfoSlot → ℕ → Bool
check_slot_realloc s pool_size =
    if not (s.reserved == 0) || not (s.third == 0)
    then false
    else if ltb pool_size s.first
    then false
    else not (ltb pool_size s.second)

-- check_info_slot
unfoldable pub check_info_slot : InfoSlot → ℕ → Bool
check_info_slot s pool_size =
    if not (ltb s.type 4)
    then false
    else if s.type == 0
    then true
    else if s.type == 2
    then check_slot_realloc s pool_size
    else check_slot_one s pool_size

-- The loop over the slots: `left` of them from the slot `i` on.
unfoldable pub check_slots : ℕ → ℕ → BackendPool → ℕ → Bool
check_slots zero i p size = true
check_slots (suc left) i p size =
    check_info_slot (p.info_slot i) size && check_slots left (i + 1) p size

-- The loop over the zones: whether all are consistent, and whether one has a valid header.
unfoldable pub check_zones : ℕ → ℕ → ℕ → BackendPool → ℕ → Bool × Bool
check_zones zero i max_zone p size = (true, false)
check_zones (suc left) i max_zone p size =
    let (rest_ok, rest_valid) = check_zones left (i + 1) max_zone p size in
    (
      check_zone (header p i) (get_zone_size_idx i max_zone size) && rest_ok,
      verify_header (p.zone i).backup_header || rest_valid,
    )

-- backend_persistent_consistency_check of a mapped pool
unfoldable pub consistency_check : BackendPool → ℕ → Bool
consistency_check p size =
    let max_zone = get_max_zones size in
    let (ok, valid) = check_zones max_zone 0 max_zone p size in
    (check_slots max_info_slot 0 p size && ok) && (verify_header p.primary_header || valid)
