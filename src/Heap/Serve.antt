-- ===== src/Heap/Serve.antt =====
-- alloc_from_bucket of src/libpmemobj/pmalloc.c, store by store, where the bucket has a chunk to offer.
use nvml.Base.{
  ℕ, ◌+◌, ◌-◌, ◌*◌, ◌<◌, ◌≤◌, ◌^◌, ◌≡◌, ◌≢◌, refl, sym, ap, subst, ◌∙◌, length, replicate,
  length-replicate, Bool, true, false, if_true, if_false, ltb, leb, ◌==◌, if◌then◌else◌, arith,
}
use native.Mathlib.Decide.{dec_lt}
use nvml.Base.Memory.{Apart}
use nvml.Namespace.{u32}
use nvml.Container.{get_rm_ge, null_val}
use nvml.Bucket.{obj_key, calc_units}
use nvml.Heap.{
  BackendPool, InfoSlot, Heap, Block, slot_stored, header, apply, persist, max_chunk, chunksize,
}
use nvml.Heap.Chunk.{
  data_offset, get_chunk_by_offset, get_chunk_by_offset-data_offset, uid_chunk_idx, uid_zone_idx,
}
use nvml.Heap.Backend.{
  is_used, with_used, set_chunk_flag, set_alloc_ptr, write_chunk_header, set_chunk_size,
  split_chunk, add_chunk, add_block, init_bucket_obj, mark_allocated,
}
use nvml.Heap.Alloc.{take_block, get_block, alloc_from_bucket}
use nvml.Heap.View.{header-stored, is_used-with_used}
use nvml.Heap.Safely.{
  Good, Safely, word-Safely, header-Safely, second-Safely, content-Safely, bucket-Safely,
}

pub uid_zone_idx-lt : (u : ℕ) → uid_zone_idx u < 2 ^ 16
unfolding uid_zone_idx
uid_zone_idx-lt u = omega arith

pub data_offset-lt : (z c : ℕ) → z < 2 ^ 16 → c < max_chunk → data_offset z c < 2 ^ 64
unfolding data_offset
data_offset-lt z c hz hc = omega arith

pub data_offset-pos : (z c : ℕ) → data_offset z c ≢ 0
unfolding data_offset
data_offset-pos z c e = omega arith

-- The identifier that the bucket hands out for a request of `size` bytes.
abbrev pub handed_out : Heap → ℕ → ℕ
handed_out h size = u32 (get_rm_ge (obj_key 0 (calc_units h.bucket size)) h.bucket.objects).0

abbrev pub zone_of : Heap → ℕ → ℕ
zone_of h size = uid_zone_idx (handed_out h size)

abbrev pub chunk_of : Heap → ℕ → ℕ
chunk_of h size = uid_chunk_idx (handed_out h size)

-- The bucket hands out a free chunk inside its zone that has the units, one or more, and whose data
-- the pointer is not in.
pub record Offers (ptr size : ℕ) (h : Heap) : Type 0 where
  pub is_object : handed_out h size ≢ u32 null_val
  pub some_units : 0 < calc_units h.bucket size
  pub large : calc_units h.bucket size ≤ (header h.pool (zone_of h size) (chunk_of h size)).size_idx
  pub inside :
      chunk_of h size + (header h.pool (zone_of h size) (chunk_of h size)).size_idx ≤ max_chunk
  pub unused : is_used (header h.pool (zone_of h size) (chunk_of h size)) ≡ false
  pub apart :
      Apart
        (data_offset (zone_of h size) (chunk_of h size))
        (calc_units h.bucket size * chunksize)
        ptr
        8

-- The chunk that a request is split off.
abbrev pub rest_of : Heap → ℕ → ℕ
rest_of h size = u32 (chunk_of h size + calc_units h.bucket size)

abbrev pub offset_of : Heap → ℕ → ℕ
offset_of h size = data_offset (zone_of h size) (chunk_of h size)

module _ (ptr size : ℕ) (h : Heap) (g : Offers ptr size h) where
  abbrev units : ℕ
  units = calc_units h.bucket size

  abbrev z : ℕ
  z = zone_of h size

  abbrev c : ℕ
  c = chunk_of h size

  abbrev d : ℕ
  d = u32 (c + units)

  abbrev off : ℕ
  off = data_offset z c

  pub located : get_chunk_by_offset off ≡ (z, c)
  located =
      get_chunk_by_offset-data_offset z c (uid_zone_idx-lt (handed_out h size))
        (omega (arith, g.large, g.some_units, g.inside))

  old_bound :
      (k : Heap)
      → header k.pool z c ≡ header h.pool z c
      → (c + (header k.pool z c).size_idx ≤ max_chunk) × (units ≤ (header k.pool z c).size_idx)
  old_bound k same =
      subst (λ hdr. (c + hdr.size_idx ≤ max_chunk) × (units ≤ hdr.size_idx)) (sym same)
        (g.inside, g.large)

  -- The chunk whose header was split off is another one.
  apart_chunks : (k : Heap) → header k.pool z c ≡ header h.pool z c → c ≢ d
  apart_chunks k same e = omega (arith, (old_bound k same).0, (old_bound k same).1, g.some_units)

  split-size :
      (k : Heap)
      → header k.pool z c ≡ header h.pool z c
      → (header (split_chunk z c units k).pool z c).size_idx ≡ units
  unfolding split_chunk add_chunk add_block set_chunk_size persist
  split-size k same = elim (dec_lt units (header k.pool z c).size_idx) [
    | yes lt ↦
        ap (λ (t : Heap). (header t.pool z c).size_idx)
          (if_true (ltb units (header k.pool z c).size_idx) _ k (ground arith))
        ∙ ap (λ t. t.size_idx)
            (header-stored halves.pool z c (record (header halves.pool z c) { size_idx = units }))
    | no ge ↦
        ap (λ (t : Heap). (header t.pool z c).size_idx)
          (if_false (ltb units (header k.pool z c).size_idx) _ k (ground arith))
        ∙ omega (arith, (old_bound k same).1)
  ]
    where
      halves : Heap
      halves = write_chunk_header z d ((header k.pool z c).size_idx - units) k

  module _ (id : ℕ) (s : InfoSlot) where
    abbrev pub guarded_by : Heap
    guarded_by = persist (slot_stored id s) h

    abbrev opened : Heap
    opened = record guarded_by {
      bucket = record h.bucket { objects = (get_rm_ge (obj_key 0 units) h.bucket.objects).1 };
    }

    abbrev object : Block × Heap
    object = init_bucket_obj (handed_out h size) units opened

    served : get_block units guarded_by ≡ (true, object.0, object.1)
    unfolding get_block take_block init_bucket_obj persist apply
    served =
        if_false (handed_out h size == u32 null_val) _ _ (ground (arith, g.is_object))
        ∙ if_true (leb units (header (split_chunk z c units opened).pool z c).size_idx) _ _
            (ground (arith, split-size opened refl))

    -- What alloc_from_bucket does with what the bucket gave.
    abbrev taken : Bool × Block × Heap → Block × Heap
    taken r =
        if r.0
        then (r.1, (mark_allocated r.1 (set_alloc_ptr ptr r.1.data_offset r.2)).1)
        else (r.1, r.2)

    pub alloc-object :
        let obj = (alloc_from_bucket ptr size guarded_by).0 in
        (obj.size_idx ≡ units) × (obj.data_offset ≡ off)
    unfolding alloc_from_bucket init_bucket_obj persist apply
    alloc-object =
        subst
          (λ (r : Bool × Block × Heap).
            ((taken r).0.size_idx ≡ units) × ((taken r).0.data_offset ≡ off))
          (sym served) (split-size opened refl, refl)

    same_header : header opened.pool z c ≡ header h.pool z c
    unfolding persist apply
    same_header = refl

    block-Apart :
        (n : ℕ) → n ≡ units → Apart off (length {A = ℕ} (replicate (u32 (n * chunksize)) 0)) ptr 8
    block-Apart n e = omega (
      arith,
      g.apart,
      length-replicate {A = ℕ} (u32 (n * chunksize)) 0,
      ap (λ t. t * chunksize) e,
    )

    module _ (P : BackendPool → Type 0) (v0 : ℕ)
        (good_before : Good P h.pool id ptr z c d s v0 false)
        (good : (used : Bool) → Good P h.pool id ptr z c d s off used)
        (begun : Safely P h.pool id ptr z c d s v0 false guarded_by) where
      abbrev During : ℕ → Bool → Heap → Type 0
      During v used k = Safely P h.pool id ptr z c d s v used k

      split-During :
          (k : Heap)
          → header k.pool z c ≡ header h.pool z c
          → During v0 false k
          → During v0 false (split_chunk z c units k)
      unfolding split_chunk add_chunk add_block set_chunk_size write_chunk_header
      split-During k same i = elim (dec_lt units (header k.pool z c).size_idx) [
        | yes lt ↦
            subst (During v0 false)
              (sym (if_true (ltb units (header k.pool z c).size_idx) _ k (ground arith)))
              (bucket-Safely P h.pool id ptr z c d s v0 false (set_chunk_size z c units halves) _
                refl refl
                (header-Safely P h.pool id ptr z c d s v0 false false
                  (record (header halves.pool z c) { size_idx = units }) halves written.at.flag
                  good_before good_before written))
        | no ge ↦
            subst (During v0 false)
              (sym (if_false (ltb units (header k.pool z c).size_idx) _ k (ground arith))) i
      ]
        where
          halves : Heap
          halves = write_chunk_header z d ((header k.pool z c).size_idx - units) k

          written : During v0 false halves
          written =
              second-Safely P h.pool id ptr z c d s v0 false _ _ (apart_chunks k same) good_before (
                second-Safely P h.pool id ptr z c d s v0 false _ k (apart_chunks k same) good_before
                  i)

      -- A chunk that is free is marked as used.
      mark-During : (k : Heap) → During off false k → During off true (set_chunk_flag z c k).1
      unfolding set_chunk_flag
      mark-During k i =
          subst (λ (r : Bool × Heap). During off true r.1) (sym (if_false _ _ _ i.at.flag))
            (header-Safely P h.pool id ptr z c d s off false true (with_used (header k.pool z c)) k
              (is_used-with_used (header k.pool z c)) (good false) (good true) i)

      opened-During : During v0 false opened
      unfolding persist
      opened-During =
          bucket-Safely P h.pool id ptr z c d s v0 false guarded_by opened refl refl begun

      pub alloc-Safely : During off true (alloc_from_bucket ptr size guarded_by).1
      unfolding alloc_from_bucket init_bucket_obj mark_allocated set_alloc_ptr persist
      alloc-Safely =
          subst (λ (r : Bool × Block × Heap). During off true (taken r).1) (sym served)
            (mark-During _ (
              content-Safely P h.pool id ptr z c d s off false off (replicate object.0.real_size 0)
                _ (block-Apart _ (split-size opened same_header)) (good false)
                (word-Safely P h.pool id ptr z c d s v0 off false _
                  (data_offset-lt z c (uid_zone_idx-lt (handed_out h size))
                    (omega (arith, g.large, g.some_units, g.inside)))
                  good_before (good false) (split-During opened same_header opened-During))))
