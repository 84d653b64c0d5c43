-- ===== src/Heap/Atomic.antt =====
-- pmalloc of src/libpmemobj/pmalloc.c under power failures.
use nvml.Base.{not, arith, ℕ, ◌≡◌, refl, sym, subst, inl, inr, [], Bool, true, false}
use nvml.Heap.{BackendPool, InfoSlot, Heap, slot_stored, empty_slot, malloc, persist}
use nvml.Heap.Chunk.{data_offset}
use nvml.Heap.Backend.{guarded, pointer, set_guard, clear_guard}
use nvml.Heap.Alloc.{alloc_from_bucket, pmalloc}
use nvml.Heap.Crash.{mix, Leaves, start-Throughout}
use nvml.Heap.View.{Shows}
use nvml.Heap.Settle.{
  set_half, clear_half, half-Survives, Survives, settled-Recovers, malloc-Recovers,
  malloc-Recovers_null,
}
use nvml.Heap.Safely.{Safely, Good, slot-Safely}
use nvml.Heap.Serve.{
  Offers, zone_of, chunk_of, rest_of, offset_of, located, data_offset-pos, alloc-Safely,
}

-- A pool where the request is served: the slot is empty, the pointer null, and the bucket has a
-- chunk to offer.
pub record Serves (id ptr size : ℕ) (h : Heap) : Type 0 where
  pub unstored : h.events ≡ []
  pub slot : h.pool.info_slot id ≡ empty_slot
  pub null : pointer h.pool ptr ≡ 0
  pub offers : Offers ptr size h

-- The call leaves the pointer at the object of the chunk and the chunk used, and whatever a power
-- failure on the way leaves, recovery settles, so that the pointer is null and the chunk free, or the
-- pointer refers to the chunk, which is used; unless the slot is half-written, with its type on the
-- media and its address not, and then the pool is in one of the two states before recovery.
pub record IsAtomic (h : Heap) (id ptr z c d v : ℕ) (used : Bool) (h' : Heap) : Type 0 where
  pub result : Shows h.pool id ptr z c d empty_slot v used h'.pool
  pub settled :
      (p : BackendPool)
      → Leaves h.pool h'.events p
      → Survives h h.pool id ptr z c d (data_offset z c) p

module _ (id ptr size : ℕ) (h : Heap) (g : Serves id ptr size h) where
  abbrev z : ℕ
  z = zone_of h size

  abbrev c : ℕ
  c = chunk_of h size

  abbrev d : ℕ
  d = rest_of h size

  abbrev off : ℕ
  off = offset_of h size

  abbrev slot : InfoSlot
  slot = guarded malloc ptr 0 empty_slot

  Good-null : Good (Survives h h.pool id ptr z c d off) h.pool id ptr z c d slot 0 false
  Good-null p at = inr (malloc-Recovers_null h h.pool id ptr z c d off p at)

  good : (used : Bool) → Good (Survives h h.pool id ptr z c d off) h.pool id ptr z c d slot off used
  good used p at = inr (
      malloc-Recovers h h.pool id ptr z c d off p (located ptr size h g.offers)
        (data_offset-pos z c) used at)

  -- The slot while it is set, and while it is cleared.
  setting :
      (k l m n o : Bool)
      → Good
          (Survives h h.pool id ptr z c d off)
          h.pool
          id
          ptr
          z
          c
          d
          (mix k l m n o empty_slot slot)
          0
          false
  setting k l m n o p at =
      half-Survives h h.pool id ptr z c d off 1 0 false (λ e. omega arith) (λ s q at. inl at)
        (malloc-Recovers_null h h.pool id ptr z c d off) k m p
        (subst (λ s. Shows h.pool id ptr z c d s 0 false p) (set_half 1 ptr k l m n o) at)

  clearing :
      (k l m n o : Bool)
      → Good
          (Survives h h.pool id ptr z c d off)
          h.pool
          id
          ptr
          z
          c
          d
          (mix k l m n o slot empty_slot)
          off
          true
  clearing k l m n o p at =
      half-Survives h h.pool id ptr z c d off 1 off true (λ e. omega arith) (λ s q at. inr at)
        (λ q at.
          malloc-Recovers h h.pool id ptr z c d off q (located ptr size h g.offers)
            (data_offset-pos z c) true at)
        (not k) (not m) p
        (subst (λ s. Shows h.pool id ptr z c d s off true p) (clear_half 1 ptr k l m n o) at)

  begun :
      Safely
        (Survives h h.pool id ptr z c d off)
        h.pool
        id
        ptr
        z
        c
        d
        slot
        0
        false
        (persist (slot_stored id slot) h)
  begun =
      slot-Safely (Survives h h.pool id ptr z c d off) h.pool id ptr z c d empty_slot slot 0 false h
        setting Good-null
        (record {
          at = first;
          throughout =
              start-Throughout (Survives h h.pool id ptr z c d off) h g.unstored
                (inr (settled-Recovers h h.pool id ptr z c d off h.pool (inl first)));
        })
    where
      first : Shows h.pool id ptr z c d empty_slot 0 false h.pool
      first = record {
        slot = g.slot;
        word = g.null;
        flag = g.offers.unused;
        elsewhere = λ y a ne. refl;
        slots = λ j ne. refl;
      }

  -- pmalloc of a request that is served hands out the free chunk that the bucket gave: the pointer
  -- refers to its data, it is used, the slot is empty, and no other slot and no chunk header but that
  -- of the rest that was split off has changed. Whatever a power failure during the call leaves,
  -- recovery of the slot brings to that state or to the one where the pointer is null and the chunk
  -- free, with an empty slot; unless the slot is half-written, with its type on the media and its
  -- address not, and then the pointer and the chunk are in one of the two states before recovery.
  pub pmalloc-IsAtomic : IsAtomic h id ptr z c d off true (pmalloc id ptr size h)
  unfolding pmalloc clear_guard set_guard
  pmalloc-IsAtomic =
      subst
        (λ s. IsAtomic h id ptr z c d off true (
          clear_guard id
            (alloc_from_bucket ptr size (persist (slot_stored id (guarded malloc ptr 0 s)) h)).1))
        (sym g.slot) (record { result = ended.at; settled = ended.throughout.left })
    where
      ended :
          Safely
            (Survives h h.pool id ptr z c d off)
            h.pool
            id
            ptr
            z
            c
            d
            empty_slot
            off
            true
            (clear_guard id (alloc_from_bucket ptr size (persist (slot_stored id slot) h)).1)
      ended =
          slot-Safely (Survives h h.pool id ptr z c d off) h.pool id ptr z c d slot empty_slot off
            true (alloc_from_bucket ptr size (persist (slot_stored id slot) h)).1 clearing
            (λ p at. inr (settled-Recovers h h.pool id ptr z c d off p (inr at)))
            (alloc-Safely ptr size h g.offers id slot (Survives h h.pool id ptr z c d off) 0
              Good-null good begun)
