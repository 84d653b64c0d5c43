-- ===== src/Heap/Resize.antt =====
-- prealloc of src/libpmemobj/pmalloc.c and a power failure before its guard is cleared.
use nvml.Base.{
  ℕ, ◌<◌, ◌≡◌, ◌≢◌, ◌⊎◌, refl, sym, ap, subst, ◌∙◌, [], ◌∷◌, Bool, true, false, if_false, leb, ◌==◌,
  if◌then◌else◌, arith,
}
use nvml.Base.Memory.{Apart, load, length-load}
use nvml.Heap.{
  BackendPool, InfoSlot, Heap, Block, slot_stored, header_stored, empty_slot, realloc, header,
  persist,
}
use nvml.Heap.Chunk.{data_offset, get_chunk_by_offset, get_chunk_by_offset-data_offset}
use nvml.Heap.Backend.{
  guarded, is_used, without_used, pointer, set_guard, clear_guard, copy_content, locate_bucket_obj,
}
use nvml.Heap.Alloc.{alloc_from_bucket, move, pfree, pmalloc, prealloc}
use nvml.Heap.Crash.{Leaves, replay, Leaves-replay, start-Throughout, persist-Throughout}
use nvml.Heap.View.{Shows, header_stored-Shows, is_used-without_used}
use nvml.Heap.Settle.{recovered, realloc_undone}
use nvml.Heap.Safely.{Safely, slot-Safely, content-Safely}
use nvml.Heap.Serve.{
  Offers, zone_of, chunk_of, rest_of, offset_of, located, data_offset-lt, data_offset-pos,
  guarded_by, alloc-Safely, alloc-object,
}
use nvml.Heap.Release.{Refers, found, locate-Refers, finished, recycled, finished_only}

-- A pool where the object at the pointer, the chunk `b` of the zone `y`, is smaller than the size
-- asked for, and the bucket has another chunk to offer, whose data the pointer is not in.
pub record Grows (id ptr size y b : ℕ) (h : Heap) : Type 0 where
  pub refers : Refers id ptr y b h
  pub positive : size ≢ 0
  pub larger : (found id ptr y b h refers).real_size < size
  pub offers : Offers ptr size h
  pub beside : (y ≢ zone_of h size) ⊎ ((b ≢ chunk_of h size) × (b ≢ rest_of h size))
  pub apart : Apart (offset_of h size) (found id ptr y b h refers).real_size ptr 8

module _ (id ptr size y b : ℕ) (h : Heap) (g : Grows id ptr size y b h) where
  abbrev z : ℕ
  z = zone_of h size

  abbrev c : ℕ
  c = chunk_of h size

  abbrev d : ℕ
  d = rest_of h size

  abbrev old : ℕ
  old = data_offset y b

  abbrev slot : InfoSlot
  slot = guarded realloc ptr old empty_slot

  abbrev obj : Block
  obj = found id ptr y b h g.refers

  abbrev Any : BackendPool → Type 0
  Any p = Unit {0}

  abbrev During : ℕ → Bool → Heap → Type 0
  During v used k = Safely Any h.pool id ptr z c d slot v used k

  abbrev begin : Heap
  begin = guarded_by ptr size h g.offers id slot

  begun : During old false begin
  begun =
      slot-Safely Any h.pool id ptr z c d empty_slot slot old false h (λ k l m n o p at. tt)
        (λ p at. tt)
        (record {
          at = record {
            slot = g.refers.slot;
            word = g.refers.word;
            flag = g.offers.unused;
            elsewhere = λ x a ne. refl;
            slots = λ j ne. refl;
          };
          throughout = start-Throughout Any h g.refers.unstored tt;
        })

  abbrev new_obj : Block
  new_obj = (alloc_from_bucket ptr size begin).0

  abbrev with_new : Heap
  with_new = (alloc_from_bucket ptr size begin).1

  abbrev copied : Heap
  copied = copy_content new_obj obj with_new

  copied-During : During (offset_of h size) true copied
  unfolding copy_content
  copied-During =
      content-Safely Any h.pool id ptr z c d slot (offset_of h size) true new_obj.data_offset
        (load with_new.pool.content obj.data_offset obj.real_size) with_new
        (omega (
          arith,
          g.apart,
          (alloc-object ptr size h g.offers id slot).1,
          length-load with_new.pool.content obj.data_offset obj.real_size,
        ))
        (λ p at. tt)
        (alloc-Safely ptr size h g.offers id slot Any old (λ p at. tt) (λ used p at. tt) begun)

  still_used : is_used (header copied.pool y b) ≡ true
  still_used = ap is_used (copied-During.at.elsewhere y b g.beside) ∙ g.refers.used

  abbrev last : Heap
  last = finished y b g.refers.in_zones g.refers.in_chunks copied still_used obj refl

  moved : move ptr size obj begin ≡ last
  unfolding move
  moved =
      if_false (new_obj.size_idx == 0) with_new _
        (ground (arith, (alloc-object ptr size h g.offers id slot).0, g.offers.some_units))
      ∙ ap (λ (r : Bool × Heap). r.1)
          (recycled y b g.refers.in_zones g.refers.in_chunks copied still_used obj refl)

  resized : prealloc id ptr size h ≡ clear_guard id last
  unfolding prealloc set_guard
  resized =
      if_false (size == 0) (pfree id ptr h) _ (ground (arith, g.positive))
      ∙ if_false (pointer h.pool ptr == 0) (pmalloc id ptr size h) _
          (ground (arith, g.refers.word, data_offset-pos y b))
      ∙ ap
          (λ (o : Block).
            if leb size o.real_size
            then h
            else clear_guard id (move ptr size o (set_guard id realloc ptr h)))
          (ap (λ (r : Bool × Block). r.1)
            (ap (λ t. locate_bucket_obj t h) g.refers.word ∙ locate-Refers id ptr y b h g.refers))
      ∙ if_false (leb size obj.real_size) h _ (ground (arith, g.larger))
      ∙ ap
          (λ (s : InfoSlot). clear_guard id (
            move ptr size obj
              (persist (slot_stored id (guarded realloc ptr (pointer h.pool ptr) s)) h)))
          g.refers.slot
      ∙ ap
          (λ v.
            clear_guard id
              (move ptr size obj (persist (slot_stored id (guarded realloc ptr v empty_slot)) h)))
          g.refers.word
      ∙ ap (clear_guard id) moved

  -- The object handed out is not the old one.
  moved_away : offset_of h size ≢ old
  moved_away e =
      ground (arith, ap (λ (t : ℕ × ℕ). t.0) same, ap (λ (t : ℕ × ℕ). t.1) same, g.beside)
    where
      same : ◌≡◌ {A = ℕ × ℕ} (z, c) (y, b)
      same =
          sym (located ptr size h g.offers)
          ∙ ap get_chunk_by_offset e
          ∙ get_chunk_by_offset-data_offset y b g.refers.in_zones g.refers.in_chunks

  before_end : last.pool ≡ replay last.events h.pool
  before_end =
      let (pools, events) =
        finished_only y b g.refers.in_zones g.refers.in_chunks copied still_used obj refl in
      pools
      ∙ (persist-Throughout Any h.pool (header_stored y b (without_used (header copied.pool y b)))
          copied copied-During.throughout (λ p t. tt) tt).whole
      ∙ ap (λ es. replay es h.pool) (sym events)

  old_freed : Shows copied.pool id ptr y b b slot (offset_of h size) false last.pool
  unfolding persist
  old_freed =
      subst (Shows copied.pool id ptr y b b slot (offset_of h size) false)
        (sym (finished_only y b g.refers.in_zones g.refers.in_chunks copied still_used obj refl).0)
        (header_stored-Shows copied.pool id ptr y b b slot (offset_of h size) true false copied.pool
          (without_used (header copied.pool y b)) (is_used-without_used (header copied.pool y b))
          (record {
            slot = copied-During.at.slot;
            word = copied-During.at.word;
            flag = still_used;
            elsewhere = λ x a ne. refl;
            slots = λ j ne. refl;
          }))

  undone : Shows last.pool id ptr z c d empty_slot old false (recovered h id last.pool)
  undone =
      realloc_undone h last.pool id ptr z c d (offset_of h size) last.pool
        (located ptr size h g.offers) (data_offset-pos z c) old (is_used (header last.pool z c))
        (data_offset-pos y b) moved_away (data_offset-lt y b g.refers.in_zones g.refers.in_chunks)
        (record {
          slot = old_freed.slot;
          word = old_freed.word;
          flag = refl;
          elsewhere = λ x a ne. refl;
          slots = λ j ne. refl;
        })

  -- A power failure in a prealloc that moves the object to a larger chunk may leave a pool from which
  -- recovery makes one where the pointer refers to the old object again, whose chunk is free.
  pub prealloc-Leaves_free :
      (p : BackendPool) × Leaves h.pool (prealloc id ptr size h).events p
      × (pointer (recovered h id p) ptr ≡ data_offset y b)
      × (is_used (header (recovered h id p) y b) ≡ false)
  unfolding clear_guard persist
  prealloc-Leaves_free = (
    last.pool,
    subst (Leaves h.pool (prealloc id ptr size h).events) (sym before_end) (
        subst (λ (k : Heap). Leaves h.pool k.events (replay last.events h.pool)) (sym resized)
          (Leaves-replay last.events (slot_stored id empty_slot ∷ []) h.pool)),
    undone.word,
    ap is_used (undone.elsewhere y b g.beside) ∙ old_freed.flag,
  )
