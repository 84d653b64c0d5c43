-- ===== src/Heap/Release.antt =====
-- pfree of src/libpmemobj/pmalloc.c under power failures.
use nvml.Base.{
  not, ℕ, ◌<◌, ◌^◌, ◌≡◌, refl, sym, ap, subst, ◌∙◌, inl, inr, [], Bool, true, false, if_true,
  if_false, ◌==◌, if◌then◌else◌, arith,
}
use nvml.Namespace.{u32}
use nvml.Container.{null_val}
use nvml.Heap.{
  BackendPool, Heap, Block, slot_stored, header_stored, empty_slot, free, header, persist,
  max_chunk, chunk_header_magic,
}
use nvml.Heap.Chunk.{
  data_offset, get_chunk_by_offset, get_chunk_by_offset-data_offset, uid_pack, uid_chunk_idx,
  uid_zone_idx, uid_zone_idx-uid_pack, uid_chunk_idx-uid_pack,
}
use nvml.Heap.Backend.{
  guarded, is_used, without_used, clear_chunk_flag, pointer, set_alloc_ptr, set_guard, clear_guard,
  add_block, block_of, mark_free, no_block, locate_bucket_obj,
}
use nvml.Heap.Alloc.{recycle, release, pfree}
use nvml.Heap.Crash.{mix, start-Throughout}
use nvml.Heap.View.{Shows, is_used-without_used}
use nvml.Heap.Settle.{
  set_half, clear_half, half-Survives, Survives, settled-Recovers, free-Recovers,
  free-Recovers_null,
}
use nvml.Heap.Safely.{Good, Safely, slot-Safely, word-Safely, header-Safely, bucket-Safely}
use nvml.Heap.Serve.{data_offset-pos}
use nvml.Heap.Atomic.{IsAtomic}

-- A pool where the pointer refers to the used chunk `c` of the zone `z`, and the slot is empty.
pub record Refers (id ptr z c : ℕ) (h : Heap) : Type 0 where
  pub unstored : h.events ≡ []
  pub slot : h.pool.info_slot id ≡ empty_slot
  pub word : pointer h.pool ptr ≡ data_offset z c
  pub in_zones : z < 2 ^ 16
  pub in_chunks : c < max_chunk
  pub marked : (header h.pool z c).magic ≡ chunk_header_magic
  pub used : is_used (header h.pool z c) ≡ true

bucket_only :
    (b : Bool) (obj : Block) (k : Heap)
    → ((if b then k else add_block obj k).pool ≡ k.pool)
      × ((if b then k else add_block obj k).events ≡ k.events)
unfolding add_block
bucket_only true obj k = (refl, refl)
bucket_only false obj k = (refl, refl)

-- pool_recycle_object on a used chunk.
module _ (z c : ℕ) (lt : z < 2 ^ 16) (bound : c < max_chunk) (k : Heap)
    (used : is_used (header k.pool z c) ≡ true) (obj : Block)
    (same : obj.unique_id ≡ uid_pack c z) where
  abbrev pub cleared : Heap
  cleared = persist (header_stored z c (without_used (header k.pool z c))) k

  marked_free : mark_free obj k ≡ (true, cleared)
  unfolding mark_free clear_chunk_flag
  marked_free =
      ap (λ t. clear_chunk_flag (uid_zone_idx t) (uid_chunk_idx t) k) same
      ∙ ap (λ t. clear_chunk_flag t (uid_chunk_idx (uid_pack c z)) k)
          (uid_zone_idx-uid_pack c z (omega arith) lt)
      ∙ ap (λ t. clear_chunk_flag z t k) (uid_chunk_idx-uid_pack c z (omega arith) lt)
      ∙ if_true (is_used (header k.pool z c)) (true, cleared) (false, k) used

  abbrev pub finished : Heap
  finished = if obj.unique_id == u32 null_val then cleared else add_block obj cleared

  pub recycled : recycle obj k ≡ (true, finished)
  unfolding recycle
  recycled =
      ap
        (λ (r : Bool × Heap).
          if r.0
          then (true, if obj.unique_id == u32 null_val then r.1 else add_block obj r.1)
          else (false, r.1))
        marked_free

  pub finished_only : (finished.pool ≡ cleared.pool) × (finished.events ≡ cleared.events)
  finished_only = bucket_only (obj.unique_id == u32 null_val) obj cleared

module _ (id ptr z c : ℕ) (h : Heap) (g : Refers id ptr z c h) where
  abbrev off : ℕ
  off = data_offset z c

  abbrev During : ℕ → Bool → Heap → Type 0
  During v used k =
      Safely (Survives h h.pool id ptr z c c off) h.pool id ptr z c c
        (guarded free ptr off empty_slot) v used k

  located : get_chunk_by_offset off ≡ (z, c)
  located = get_chunk_by_offset-data_offset z c g.in_zones g.in_chunks

  abbrev pub found : Block
  found = record (block_of z c (header h.pool z c)) { data_offset = off }

  pub locate-Refers : locate_bucket_obj off h ≡ (true, found)
  unfolding locate_bucket_obj
  locate-Refers =
      ap
        (λ (t : ℕ × ℕ).
          if (header h.pool t.0 t.1).magic == chunk_header_magic
          then if is_used (header h.pool t.0 t.1)
            then (true, record (block_of t.0 t.1 (header h.pool t.0 t.1)) { data_offset = off })
            else (false, no_block)
          else (false, no_block))
        located
      ∙ if_true ((header h.pool z c).magic == chunk_header_magic) _ _ (ground (arith, g.marked))
      ∙ if_true (is_used (header h.pool z c)) _ _ g.used

  good :
      (used : Bool) (p : BackendPool)
      → Shows h.pool id ptr z c c (guarded free ptr off empty_slot) off used p
      → Survives h h.pool id ptr z c c off p
  good used p at =
      inr (free-Recovers h h.pool id ptr z c c off p located (data_offset-pos z c) off used at)

  -- The slot while it is set, and while it is cleared.
  setting :
      (k l m n o : Bool)
      → Good
          (Survives h h.pool id ptr z c c off)
          h.pool
          id
          ptr
          z
          c
          c
          (mix k l m n o empty_slot (guarded free ptr off empty_slot))
          off
          true
  setting k l m n o p at =
      half-Survives h h.pool id ptr z c c off 3 off true (λ e. omega arith) (λ s q at. inr at)
        (λ q at.
          free-Recovers h h.pool id ptr z c c off q located (data_offset-pos z c) off true at)
        k m p (subst (λ s. Shows h.pool id ptr z c c s off true p) (set_half 3 ptr k l m n o) at)

  clearing :
      (k l m n o : Bool)
      → Good
          (Survives h h.pool id ptr z c c off)
          h.pool
          id
          ptr
          z
          c
          c
          (mix k l m n o (guarded free ptr off empty_slot) empty_slot)
          0
          false
  clearing k l m n o p at =
      half-Survives h h.pool id ptr z c c off 3 0 false (λ e. omega arith) (λ s q at. inl at)
        (λ q at. free-Recovers_null h h.pool id ptr z c c off q off at) (not k) (not m) p
        (subst (λ s. Shows h.pool id ptr z c c s 0 false p) (clear_half 3 ptr k l m n o) at)

  begun : During off true (set_guard id free ptr h)
  unfolding set_guard
  begun =
      subst (λ s. During off true (persist (slot_stored id s) h))
        (ap (guarded free ptr (pointer h.pool ptr)) (sym g.slot))
        (slot-Safely (Survives h h.pool id ptr z c c off) h.pool id ptr z c c empty_slot
          (guarded free ptr off empty_slot) off true h setting (good true)
          (record {
            at = first;
            throughout =
                start-Throughout (Survives h h.pool id ptr z c c off) h g.unstored
                  (inr (settled-Recovers h h.pool id ptr z c c off h.pool (inr first)));
          }))
    where
      first : Shows h.pool id ptr z c c empty_slot off true h.pool
      first = record {
        slot = g.slot;
        word = g.word;
        flag = g.used;
        elsewhere = λ y a ne. refl;
        slots = λ j ne. refl;
      }

  Good-null :
      (p : BackendPool)
      → Shows h.pool id ptr z c c (guarded free ptr off empty_slot) 0 false p
      → Survives h h.pool id ptr z c c off p
  Good-null p at = inr (free-Recovers_null h h.pool id ptr z c c off p off at)

  abbrev guarded_heap : Heap
  guarded_heap = set_guard id free ptr h

  abbrev after : Heap
  after = finished z c g.in_zones g.in_chunks guarded_heap begun.at.flag found refl

  after-During : During off false after
  after-During =
      let (pools, events) =
        finished_only z c g.in_zones g.in_chunks guarded_heap begun.at.flag found refl in
      bucket-Safely (Survives h h.pool id ptr z c c off) h.pool id ptr z c c
        (guarded free ptr off empty_slot) off false
        (cleared z c g.in_zones g.in_chunks guarded_heap begun.at.flag found refl) after pools
        events
        (header-Safely (Survives h h.pool id ptr z c c off) h.pool id ptr z c c
          (guarded free ptr off empty_slot) off true false
          (without_used (header guarded_heap.pool z c)) guarded_heap
          (is_used-without_used (header guarded_heap.pool z c)) (good true) (good false) begun)

  released : pfree id ptr h ≡ clear_guard id (set_alloc_ptr ptr 0 after)
  unfolding pfree release
  released =
      if_false (pointer h.pool ptr == 0) h _ (ground (arith, g.word, data_offset-pos z c))
      ∙ ap (λ (r : Bool × Block). if r.0 then release id ptr r.1 h else h)
          (ap (λ t. locate_bucket_obj t h) g.word ∙ locate-Refers)
      ∙ ap (λ (r : Bool × Heap). clear_guard id (if r.0 then set_alloc_ptr ptr 0 r.1 else r.1))
          (recycled z c g.in_zones g.in_chunks guarded_heap begun.at.flag found refl)

  -- pfree of a pointer to the data of a used chunk, the slot of the arena being empty, leaves the
  -- pointer null and the chunk free, the slot empty and other slots and chunk headers as they were.
  -- Whatever a power failure during the call leaves, recovery of the slot brings to that state or to
  -- the one where the pointer refers to the chunk, which is used, with an empty slot; unless the slot
  -- is half-written, with its type on the media and its address not, and then the pointer and the
  -- chunk are in one of the two states before recovery.
  pub pfree-IsAtomic : IsAtomic h id ptr z c c 0 false (pfree id ptr h)
  unfolding clear_guard set_alloc_ptr
  pfree-IsAtomic =
      subst (IsAtomic h id ptr z c c 0 false) (sym released)
        (record { result = ended.at; settled = ended.throughout.left })
    where
      ended :
          Safely
            (Survives h h.pool id ptr z c c off)
            h.pool
            id
            ptr
            z
            c
            c
            empty_slot
            0
            false
            (clear_guard id (set_alloc_ptr ptr 0 after))
      ended =
          slot-Safely (Survives h h.pool id ptr z c c off) h.pool id ptr z c c
            (guarded free ptr off empty_slot) empty_slot 0 false (set_alloc_ptr ptr 0 after)
            clearing (λ p at. inr (settled-Recovers h h.pool id ptr z c c off p (inl at)))
            (word-Safely (Survives h h.pool id ptr z c c off) h.pool id ptr z c c
              (guarded free ptr off empty_slot) off 0 false after (omega arith) (good false)
              Good-null after-During)
