-- ===== src/Heap/Recover.antt =====
-- Recovery of the information slots when a pool is opened that was not closed, in
-- src/libpmemobj/backend_persistent.c.
use nvml.Base.{ℕ, Bool, ◌==◌, ◌&&◌, ◌||◌, if◌then◌else◌}
use nvml.Heap.{InfoSlot, Heap, slot_stored, empty_slot, persist}
use nvml.Heap.Chunk.{get_chunk_by_offset}
use nvml.Heap.Backend.{set_chunk_flag, clear_chunk_flag, pointer, set_alloc_ptr}

-- recover_slot_unknown, and the end of the other functions.
unfoldable pub clear_slot : ℕ → Heap → Heap
clear_slot id h = persist (slot_stored id empty_slot) h

-- The chunk of the object that the pointer refers to is free again, and the pointer is `value`.
unfoldable pub revert : ℕ → ℕ → Heap → Heap
revert ptr value h =
    let (z, c) = get_chunk_by_offset (pointer h.pool ptr) in
    set_alloc_ptr ptr value (clear_chunk_flag z c h).1

-- recover_slot_alloc
unfoldable pub recover_slot_alloc : ℕ → InfoSlot → Heap → Heap
recover_slot_alloc id s h =
    clear_slot id (if pointer h.pool s.first == 0 then h else revert s.first 0 h)

-- recover_slot_realloc
unfoldable pub recover_slot_realloc : ℕ → InfoSlot → Heap → Heap
recover_slot_realloc id s h =
    let now = pointer h.pool s.first in
    clear_slot id
      (if now == 0 || (s.second == 0 || now == s.second) then h else revert s.first s.second h)

-- recover_slot_free
unfoldable pub recover_slot_free : ℕ → InfoSlot → Heap → Heap
recover_slot_free id s h =
    let (z, c) = get_chunk_by_offset (pointer h.pool s.first) in
    clear_slot id (if pointer h.pool s.first == 0 then h else (set_chunk_flag z c h).1)

abbrev pub is_empty : InfoSlot → Bool
is_empty s = s.type == 0 && (s.reserved == 0 && (s.first == 0 && (s.second == 0 && s.third == 0)))

-- The table recover_slot, by the slot's type: there are four types.
unfoldable pub recover_slot : ℕ → InfoSlot → Heap → Heap
recover_slot id s h =
    if s.type == 0
    then clear_slot id h
    else if s.type == 1
    then recover_slot_alloc id s h
    else if s.type == 2
    then recover_slot_realloc id s h
    else recover_slot_free id s h

-- recover_info_slot
unfoldable pub recover_info_slot : ℕ → Heap → Heap
recover_info_slot id h =
    let s = h.pool.info_slot id in if is_empty s then h else recover_slot id s h
