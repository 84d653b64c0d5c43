-- ===== src/Heap/Closed.antt =====
-- A pool that was closed passes the consistency check of src/libpmemobj/backend_persistent.c.
use nvml.Base.{ℕ, zero, suc, ◌+◌, ◌<◌, ◌≡◌, refl, sym, ap, ◌∙◌, List, true, arith}
use nvml.Heap.{BackendPool, Heap, header, set_at, max_info_slot}
use nvml.Heap.Zones.{get_max_zones, get_zone_size_idx, check_zone}
use nvml.Heap.Open.{
  verify_header, with_primary, write_backups, with_state, set_pool_state, state_closed,
  close_pmem_storage,
}
use nvml.Heap.Reopen.{IsHeader, backup, reached, verify-with_state, set_pool_state_backups}
use nvml.Heap.Check.{check_info_slot, check_slots, check_zones, consistency_check}

-- Writing the backups leaves the slots and the chunk headers.
pub write_backups_chunks :
    (left i : ℕ) (h : Heap)
    → ((write_backups left i h).pool.info_slot ≡ h.pool.info_slot)
      × ((j : ℕ) → header (write_backups left i h).pool j ≡ header h.pool j)
unfolding write_backups
write_backups_chunks zero i h = (refl, λ j. refl)
write_backups_chunks (suc left) i h =
    let (slots, chunks) = write_backups_chunks left (i + 1) _ in (slots, λ j. chunks j ∙ same j)
  where
    same :
        (j : ℕ)
        → (set_at h.pool.zone i
            (record (h.pool.zone i) { backup_header = h.pool.primary_header })
            j).chunk_header
          ≡ header h.pool j
    same j = ground arith

set_pool_state_chunks :
    (state : ℕ) (h : Heap)
    → ((set_pool_state state h).pool.info_slot ≡ h.pool.info_slot)
      × ((j : ℕ) → header (set_pool_state state h).pool j ≡ header h.pool j)
unfolding set_pool_state
set_pool_state_chunks state h =
    write_backups_chunks h.max_zone 0 (with_primary (with_state state h.pool.primary_header) h)

slots_accepted :
    (p : BackendPool) (size left i : ℕ)
    → ((j : ℕ) → j < i + left → check_info_slot (p.info_slot j) size ≡ true)
    → check_slots left i p size ≡ true
unfolding check_slots
slots_accepted p size zero i h = refl
slots_accepted p size (suc left) i h =
    ground
      (arith, h i (omega arith), slots_accepted p size left (i + 1) (λ j lt. h j (omega arith)))

zones_accepted :
    (p : BackendPool) (size max_zone left i : ℕ)
    → ((j : ℕ) → j < i + left → check_zone (header p j) (get_zone_size_idx j max_zone size) ≡ true)
    → (check_zones left i max_zone p size).0 ≡ true
unfolding check_zones
zones_accepted p size max_zone zero i h = refl
zones_accepted p size max_zone (suc left) i h = ground (
  arith,
  h i (omega arith),
  zones_accepted p size max_zone left (i + 1) (λ j lt. h j (omega arith)),
)

backup_found :
    (p : BackendPool) (size max_zone left i : ℕ)
    → 0 < left
    → verify_header (p.zone i).backup_header ≡ true
    → (check_zones left i max_zone p size).1 ≡ true
unfolding check_zones
backup_found p size max_zone zero i pos e = absurd (omega arith)
backup_found p size max_zone (suc left) i pos e = ground arith

-- Let a pool of one zone or more have a header, slots that check_info_slot accepts and zones that
-- check_zone accepts. After it is closed the consistency check accepts it, whatever becomes of its
-- primary header: the backup of the first zone is enough.
pub consistency_check-close :
    (h : Heap) (hdr : List ℕ)
    → IsHeader h.pool.primary_header
    → h.max_zone ≡ get_max_zones h.pool_size
    → 0 < h.max_zone
    → ((i : ℕ) → i < max_info_slot → check_info_slot (h.pool.info_slot i) h.pool_size ≡ true)
    → ((j : ℕ)
        → j < h.max_zone
        → check_zone (header h.pool j) (get_zone_size_idx j h.max_zone h.pool_size) ≡ true)
    → consistency_check (reached h hdr).pool h.pool_size ≡ true
unfolding consistency_check close_pmem_storage
consistency_check-close h hdr g zones pos slots_ok zones_ok = ground (
  arith,
  slots_accepted after.pool h.pool_size max_info_slot 0 slots,
  zones_accepted after.pool h.pool_size (get_max_zones h.pool_size) (get_max_zones h.pool_size) 0
      accepted,
  backup_found after.pool h.pool_size (get_max_zones h.pool_size) (get_max_zones h.pool_size) 0
      (omega arith) valid,
)
  where
    after : Heap
    after = reached h hdr

    kept :
        ((close_pmem_storage h).pool.info_slot ≡ h.pool.info_slot)
        × ((j : ℕ) → header (close_pmem_storage h).pool j ≡ header h.pool j)
    kept = set_pool_state_chunks state_closed h

    slots :
        (j : ℕ)
        → j < 0 + max_info_slot
        → check_info_slot (after.pool.info_slot j) h.pool_size ≡ true
    slots j lt = ap (λ f. check_info_slot (f j) h.pool_size) kept.0 ∙ slots_ok j lt

    accepted :
        (j : ℕ)
        → j < 0 + get_max_zones h.pool_size
        → check_zone
            (header after.pool j)
            (get_zone_size_idx j (get_max_zones h.pool_size) h.pool_size)
          ≡ true
    accepted j lt =
        ap (λ f. check_zone f (get_zone_size_idx j (get_max_zones h.pool_size) h.pool_size))
          (kept.1 j)
        ∙ ap (λ n. check_zone (header h.pool j) (get_zone_size_idx j n h.pool_size)) (sym zones)
        ∙ zones_ok j (omega arith)

    valid : verify_header (backup after 0) ≡ true
    valid =
        ap verify_header (set_pool_state_backups state_closed h 0 pos)
        ∙ verify-with_state state_closed h.pool.primary_header g
