-- ===== src/Bucket.antt =====
-- src/libpmemobj/bucket.c: a bucket of free objects of the allocator, kept in a container under a
-- key made of identifier and size, and the classes of buckets of a pool. Allocation does not fail.
-- bucket_get_object is in Heap/Alloc, with the backend that it calls.
pub mod Laws
mod Tests
use nvml.Base.{
  ℕ, zero, suc, ◌+◌, ◌-◌, ◌*◌, ◌/◌, ◌^◌, List, [], ◌∷◌, Bool, true, false, bit_or, set, get_or, leb,
  ◌==◌, Option, none, some, if◌then◌else◌,
}
use nvml.Namespace.{u32, u64, sub64}
use nvml.Container.{Tree, add, get_rm_ge, null_val}

-- `struct bucket`, less its pointers to the pool and the backend.
pub record Bucket : Type 0 where
  pub unit_size : ℕ
  pub objects : Tree

-- `struct bucket_object`, the part that bucket.c uses.
pub record BucketObject : Type 0 where
  pub size_idx : ℕ
  pub unique_id : ℕ

-- OBJ_KEY
abbrev pub obj_key : ℕ → ℕ → ℕ
obj_key u s = bit_or (u64 (u * 2 ^ 32)) s

-- bucket_calc_units
unfoldable pub calc_units : Bucket → ℕ → ℕ
calc_units b size = u32 (sub64 size 1 / b.unit_size)

-- bucket_add_object
unfoldable pub add_object : Bucket → BucketObject → Bucket
add_object b obj = record b {
  objects = add (obj_key obj.unique_id obj.size_idx) obj.unique_id b.objects;
}

abbrev pub behind : ℕ → Option (ℕ × List ℕ) → Option (ℕ × List ℕ)
behind u none = none
behind u (some (i, classes)) = some (suc i, u ∷ classes)

-- bucket_register_class on the unit sizes of the classes: a class with unit size 0 is free.
-- `none`: there is no free class.
unfoldable pub register_class : List ℕ → ℕ → Option (ℕ × List ℕ)
register_class [] c = none
register_class (u ∷ classes) c =
    let rest = register_class classes c in if u == 0 then some (0, c ∷ classes) else behind u rest

-- bucket_unregister_class: whether there was such a class.
unfoldable pub unregister_class : List ℕ → ℕ → Bool × List ℕ
unregister_class classes id =
    if get_or classes id 0 == 0 then (false, classes) else (true, set classes id 0)
