-- ===== src/Heap/Counts.antt =====
-- Numbers of zones and of chunks in src/libpmemobj/backend_persistent.c, and of units in bucket.c.
use nvml.Base.{
  ℕ, zero, suc, ◌+◌, ◌-◌, ◌*◌, ◌/◌, ◌%◌, ◌^◌, ◌<◌, ◌≤◌, ◌≡◌, refl, ltb, if◌then◌else◌, if_true,
  if_false, ap, ◌∙◌, arith,
}
use native.Mathlib.Decide.{dec_lt}
use native.Mathlib.Nat.{mod-add-div'}
use nvml.Bucket.{Bucket, calc_units}
use nvml.Heap.{chunksize, max_chunk, pool_header_size, chunk_headers_size}
use nvml.Heap.Zones.{zone_min_size, zone_max_size, max_zones_from, get_max_zones, get_zone_size_idx}

none_left : (n : ℕ) → n - n ≡ 0
none_left n = omega arith

no_zones : (fuel n : ℕ) → max_zones_from fuel 0 n ≡ n
unfolding max_zones_from
no_zones zero n = refl
no_zones (suc fuel) n = refl

max_zones_from_lem :
    (fuel rawsize n : ℕ)
    → rawsize / zone_max_size + 1 < fuel
    → max_zones_from fuel rawsize n
      ≡ n
        + (rawsize / zone_max_size + (if ltb zone_min_size (rawsize % zone_max_size) then 1 else 0))
unfolding max_zones_from
max_zones_from_lem zero rawsize n h = absurd (omega arith)
max_zones_from_lem (suc fuel) rawsize n h = elim (dec_lt rawsize zone_max_size) [
  | yes small ↦
      let all = if_true (ltb rawsize zone_max_size) rawsize zone_max_size (ground arith) in
      ground (
        arith,
        ap (λ t. max_zones_from fuel (rawsize - t) (n + 1)) all,
        ap (λ t. max_zones_from fuel t (n + 1)) (none_left rawsize),
        no_zones fuel (n + 1),
      )
  | no large ↦
      let part = if_false (ltb rawsize zone_max_size) rawsize zone_max_size (ground arith) in
      ground (
        arith,
        ap (λ t. max_zones_from fuel (rawsize - t) (n + 1)) part,
        max_zones_from_lem fuel (rawsize - zone_max_size) (n + 1) (omega arith),
      )
]

-- get_max_zones counts the whole zones of the size that it takes for the greatest, and one more if
-- what is left is more than the least size.
pub get_max_zones-counts :
    (rawsize : ℕ)
    → get_max_zones rawsize
      ≡ rawsize / zone_max_size + (if ltb zone_min_size (rawsize % zone_max_size) then 1 else 0)
unfolding get_max_zones
get_max_zones-counts rawsize =
    max_zones_from_lem (rawsize / zone_max_size + 2) rawsize 0 (omega arith) ∙ omega arith

-- A pool that has room for more chunks than a zone has headers, but is not larger than what
-- get_max_zones takes for one zone, is given one zone of more chunks than it has headers.
pub get_zone_size_idx-exceeds :
    (size : ℕ)
    → pool_header_size + chunk_headers_size + (max_chunk + 1) * chunksize ≤ size
    → size < zone_max_size
    → max_chunk < get_zone_size_idx 0 (get_max_zones size) size
unfolding get_zone_size_idx
get_zone_size_idx-exceeds size lo hi = ground (arith, get_max_zones-counts size)

-- An object of as many units as bucket_calc_units gives for a size is smaller than the size, whatever
-- the size but 0.
pub calc_units-lt :
    (b : Bucket) (size : ℕ)
    → 0 < size
    → size < 2 ^ 64
    → 0 < b.unit_size
    → calc_units b size * b.unit_size < size
unfolding calc_units
calc_units-lt b size pos lt unit = grind (arith, mod-add-div')
