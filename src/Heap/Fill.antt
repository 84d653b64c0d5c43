-- ===== src/Heap/Fill.antt =====
-- persistent_fill_buckets of src/libpmemobj/backend_persistent.c on a consistent zone.
use nvml.Base.{
  ℕ, zero, suc, ◌+◌, ◌^◌, ◌<◌, ◌≡◌, refl, sym, ap, ◌∙◌, List, [], ◌∷◌, ◌++◌, if_true, if_false,
  Bool-cases, inl, inr, ltb, ◌==◌, if◌then◌else◌, Option, some, arith,
}
use mathlib.Core.List.{Perm, perm_middle}
use mathlib.Core.List.Perm
use nvml.Namespace.{u32}
use nvml.Bucket.{obj_key, add_object}
use nvml.Container.Order.{entries, IsOrdered, Splits, Splits-right}
use nvml.Container.Laws.{add-entries}
use nvml.Heap.{BackendPool, ChunkHeader, Heap, chunk_header_magic, header}
use nvml.Heap.Backend.{is_used, add_chunk, add_block}
use nvml.Heap.Zones.{fill_from, fill_buckets, get_zone_size_idx}
use nvml.Heap.Chunk.{uid_pack}
use nvml.Heap.Chain.{IsChunk, Chain, at_end, next, no_wrap}

-- The chunks of the zone `z` that are free, in their order.
abbrev pub frees : {chunks : ℕ → ChunkHeader} {n i : ℕ} → Chain chunks n i → List ℕ
frees (at_end e) = []
frees {chunks} {i} (next lt is rest) = if is_used (chunks i) then frees rest else i ∷ frees rest

abbrev pub add_chunks : ℕ → List ℕ → Heap → Heap
add_chunks z [] h = h
add_chunks z (i ∷ is) h = add_chunks z is (add_chunk z i h)

-- One round at a chunk.
fill_step :
    (fuel z n i : ℕ) (h : Heap)
    → n < 2 ^ 31
    → i < n
    → IsChunk n (header h.pool z i)
    → fill_from (suc fuel) z n i h
      ≡ fill_from fuel z n
          (i + (header h.pool z i).size_idx)
          (if is_used (header h.pool z i) then h else add_chunk z i h)
unfolding fill_from
fill_step fuel z n i h small lt c =
    ap (λ (k : Heap). round k)
      (if_true ((header h.pool z i).magic == chunk_header_magic) h _ (ground (arith, c.marked)))
    ∙ if_true (ltb i n) _ (some h) (ground arith)
    ∙ ap (λ t. fill_from fuel z n t (if is_used (header h.pool z i) then h else add_chunk z i h))
        (no_wrap (i + (header h.pool z i).size_idx) (omega (arith, c.sized.1)))
  where
    round : Heap → Option Heap
    round k =
        if ltb i n
        then fill_from fuel z n (u32 (i + (header k.pool z i).size_idx))
            (if is_used (header k.pool z i) then k else add_chunk z i k)
        else some h

-- Where the chunks of the zone follow on one another from `i` on, the loop ends, and adds those that
-- are free to the bucket in their order. It stores nothing.
fill_from_lem :
    (fuel z n i : ℕ) (h : Heap) (chain : Chain (header h.pool z) n i)
    → n < 2 ^ 31
    → n < i + fuel
    → fill_from fuel z n i h ≡ some (add_chunks z (frees chain) h)
unfolding fill_from add_chunk add_block
fill_from_lem zero z n i h (at_end e) small lt = absurd (omega arith)
fill_from_lem (suc fuel) z n i h (at_end e) small lt = if_false (ltb i n) _ (some h) (ground arith)
fill_from_lem zero z n i h (next below c rest) small lt = absurd (omega arith)
fill_from_lem (suc fuel) z n i h (next below c rest) small lt =
    fill_step fuel z n i h small below c ∙ elim (Bool-cases (is_used (header h.pool z i))) [
      | inl e ↦
          ap (fill_from fuel z n (i + (header h.pool z i).size_idx))
            (if_true (is_used (header h.pool z i)) h _ e)
          ∙ fill_from_lem fuel z n (i + (header h.pool z i).size_idx) h rest small
              (omega (arith, c.sized.0))
          ∙ ap (λ is. some (add_chunks z is h))
              (sym (if_true (is_used (header h.pool z i)) (frees rest) (i ∷ frees rest) e))
      | inr e ↦
          ap (fill_from fuel z n (i + (header h.pool z i).size_idx))
            (if_false (is_used (header h.pool z i)) h _ e)
          ∙ fill_from_lem fuel z n (i + (header h.pool z i).size_idx) (add_chunk z i h) rest small
              (omega (arith, c.sized.0))
          ∙ ap (λ is. some (add_chunks z is h))
              (sym (if_false (is_used (header h.pool z i)) (frees rest) (i ∷ frees rest) e))
    ]

-- The entries of the bucket for the free chunks `is` of the zone `z`: the identifier of a chunk, under
-- the key of it and the size of the chunk.
abbrev pub entries_of : BackendPool → ℕ → List ℕ → List (ℕ × ℕ)
entries_of p z [] = []
entries_of p z (i ∷ is) =
    (obj_key (uid_pack i z) (header p z i).size_idx, uid_pack i z) ∷ entries_of p z is

-- A heap `h'` that has the chunks `is` in its bucket besides what the bucket of `h` has.
pub record Has (z : ℕ) (is : List ℕ) (h h' : Heap) : Type 0 where
  pub stored : (h'.pool ≡ h.pool) × (h'.events ≡ h.events)
  pub ordered : IsOrdered h'.bucket.objects
  pub objects :
      Perm (entries h'.bucket.objects) (entries_of h.pool z is ++ entries h.bucket.objects)

-- The entries `xs`, and one more among the others.
joined : (xs w o : List (ℕ × ℕ)) (k v : ℕ) → Splits w o k v → Perm (xs ++ w) ((k, v) ∷ (xs ++ o))
joined xs w o k v s =
    let t = Splits-right w o xs k v s in rw (t.has, t.hasnt) (perm_middle t.before t.after)

add_chunks-Has :
    (z : ℕ) (is : List ℕ) (h : Heap) → IsOrdered h.bucket.objects → Has z is h (add_chunks z is h)
unfolding add_chunk add_block add_object
add_chunks-Has z [] h o = record {
  stored = (refl, refl);
  ordered = o;
  objects = Perm.refl (entries h.bucket.objects);
}
add_chunks-Has z (i ∷ is) h o =
    let (again, more) =
      add-entries (obj_key (uid_pack i z) (header h.pool z i).size_idx) (uid_pack i z)
        h.bucket.objects o in
    let rest = add_chunks-Has z is (add_chunk z i h) again in
    record {
      stored = rest.stored;
      ordered = rest.ordered;
      objects = Perm.trans rest.objects (
          joined (entries_of h.pool z is) (entries (add_chunk z i h).bucket.objects)
            (entries h.bucket.objects) _ (uid_pack i z) more);
    }

-- persistent_fill_buckets on a zone that was used before and is consistent ends. To a bucket whose
-- container is ordered it adds the free chunks of the zone, each once and under the key of its
-- identifier and size, and nothing else; the container stays ordered, and nothing is stored.
pub fill_buckets-frees :
    (h : Heap)
    (chain : Chain
      (header h.pool h.zones_exhausted)
      (get_zone_size_idx h.zones_exhausted h.max_zone h.pool_size)
      0)
    → get_zone_size_idx h.zones_exhausted h.max_zone h.pool_size < 2 ^ 31
    → IsOrdered h.bucket.objects
    → (h' : Heap) × (fill_buckets h ≡ some h') × Has h.zones_exhausted (frees chain) h h'
unfolding fill_buckets
fill_buckets-frees h chain small o = (
  add_chunks h.zones_exhausted (frees chain) exhausted,
  fill_from_lem _ h.zones_exhausted _ 0 exhausted chain small (omega arith),
  record { stored = added.stored; ordered = added.ordered; objects = added.objects },
)
  where
    exhausted : Heap
    exhausted = record h { zones_exhausted = h.zones_exhausted + 1 }

    added :
        Has h.zones_exhausted
          (frees chain)
          exhausted
          (add_chunks h.zones_exhausted (frees chain) exhausted)
    added = add_chunks-Has h.zones_exhausted (frees chain) exhausted o
