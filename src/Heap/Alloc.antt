-- ===== src/Heap/Alloc.antt =====
-- src/libpmemobj/pmalloc.c over the persistent backend: allocation, release and resizing of an
-- object, with bucket_get_object of bucket.c and pool_recycle_object of pool.c. `id` is the arena
-- that pool_select_arena has chosen. All sizes share the bucket 0, as in get_bucket_class_id_by_size.
use nvml.Base.{ℕ, Bool, true, false, leb, ◌==◌, if◌then◌else◌}
use nvml.Namespace.{u32}
use nvml.Container.{get_rm_ge, null_val}
use nvml.Bucket.{obj_key, calc_units}
use nvml.Heap.{Block, Heap, malloc, realloc, free}
use nvml.Heap.Backend.{
  add_block, init_bucket_obj, mark_allocated, mark_free, no_block, locate_bucket_obj, copy_content,
  pointer, set_alloc_ptr, set_guard, clear_guard,
}

-- What bucket_get_object does with the value that the container gave.
unfoldable pub take_block : ℕ → ℕ → Heap → Bool × Block × Heap
take_block units value h =
    let id = u32 value in
    let (obj, h') = init_bucket_obj id units h in
    if id == u32 null_val
    then (false, record no_block { size_idx = units; unique_id = id }, h)
    else if leb units obj.size_idx
    then (true, obj, h')
    else (false, obj, add_block obj h')

-- bucket_get_object
unfoldable pub get_block : ℕ → Heap → Bool × Block × Heap
get_block units h =
    let (value, objects) = get_rm_ge (obj_key 0 units) h.bucket.objects in
    take_block units value (record h { bucket = record h.bucket { objects = objects } })

-- alloc_from_bucket: the object, or what bucket_get_object left of it.
unfoldable pub alloc_from_bucket : ℕ → ℕ → Heap → Block × Heap
alloc_from_bucket ptr size h =
    let (found, obj, h') = get_block (calc_units h.bucket size) h in
    if found
    then (obj, (mark_allocated obj (set_alloc_ptr ptr obj.data_offset h')).1)
    else (obj, h')

-- pmalloc
unfoldable pub pmalloc : ℕ → ℕ → ℕ → Heap → Heap
pmalloc id ptr size h = clear_guard id (alloc_from_bucket ptr size (set_guard id malloc ptr h)).1

-- pool_recycle_object
unfoldable pub recycle : Block → Heap → Bool × Heap
recycle obj h =
    let (freed, h') = mark_free obj h in
    if freed
    then (true, if obj.unique_id == u32 null_val then h' else add_block obj h')
    else (false, h')

-- What pfree does with the object that it has found.
unfoldable pub release : ℕ → ℕ → Block → Heap → Heap
release id ptr obj h =
    let (recycled, h') = recycle obj (set_guard id free ptr h) in
    clear_guard id (if recycled then set_alloc_ptr ptr 0 h' else h')

-- pfree
unfoldable pub pfree : ℕ → ℕ → Heap → Heap
pfree id ptr h =
    let (found, obj) = locate_bucket_obj (pointer h.pool ptr) h in
    if pointer h.pool ptr == 0 then h else if found then release id ptr obj h else h

-- The part of prealloc under the guard.
unfoldable pub move : ℕ → ℕ → Block → Heap → Heap
move ptr size obj h =
    let (new_obj, h') = alloc_from_bucket ptr size h in
    if new_obj.size_idx == 0 then h' else (recycle obj (copy_content new_obj obj h')).1

-- prealloc
unfoldable pub prealloc : ℕ → ℕ → ℕ → Heap → Heap
prealloc id ptr size h =
    let obj = (locate_bucket_obj (pointer h.pool ptr) h).1 in
    if size == 0
    then pfree id ptr h
    else if pointer h.pool ptr == 0
    then pmalloc id ptr size h
    else if leb size obj.real_size
    then h
    else clear_guard id (move ptr size obj (set_guard id realloc ptr h))
