-- ===== src/Heap/ZoneTests.antt =====
-- A zone of ten units in two chunks, the first of 1 unit and used; pools that are opened; and the arenas of a pool.
use nvml.Base.{
  none, set, ℕ, zero, suc, ◌*◌, ◌<◌, ◌≡◌, ◌⊎◌, ◌↔◌, ◌≢◌, ◌==◌, refl, [], ◌∷◌, replicate, true,
  false, inr, if◌then◌else◌, some, arith,
}
use nvml.Checksum.{put, words, fletcher, checksum, insert_checksum, verify_checksum}
use nvml.Container.{leaf}
use nvml.Bucket.{calc_units}
use nvml.Heap.{Heap, ChunkHeader, empty_slot, header, chunk_header_magic, max_info_slot}
use nvml.Heap.Backend.{base_header, with_used}
use nvml.Heap.Crash.{nothing_more}
use nvml.Heap.Zones.{check_zone, get_max_zones, max_zones_from, get_zone_size_idx, fill_buckets}
use nvml.Heap.Counts.{get_zone_size_idx-exceeds, calc_units-lt}
use nvml.Heap.Chain.{IsChunk, Chain, at_end, next, check_zone_iff}
use nvml.Heap.Split.{Passes, here, later, split_chunk-Leaves}
use nvml.Heap.Fill.{Has, fill_buckets-frees}
use nvml.Heap.Open.{fresh_header, can_open_pool, verify_header, open_pmem_storage}
use nvml.Heap.Arena.{Arenas, AreTaken, FirstEmpty, pool_select_arena, pool_select_arena-FirstEmpty}
use nvml.Heap.Check.{check_info_slot, consistency_check}
use nvml.Heap.Closed.{consistency_check-close}
use nvml.Heap.Reopen.{IsHeader, IsOpened, reached, open-close}

abbrev two_chunks : ℕ → ChunkHeader
two_chunks c =
    if c == 0
    then with_used (base_header chunk_header_magic 1)
    else base_header chunk_header_magic 9

first_IsChunk : IsChunk 10 (two_chunks 0)
first_IsChunk = record { marked = refl; typed = omega arith; sized = omega arith }

second_IsChunk : IsChunk 10 (two_chunks 1)
second_IsChunk = record { marked = refl; typed = omega arith; sized = omega arith }

abbrev chained : Chain two_chunks 10 0
chained = next (omega arith) first_IsChunk (next (omega arith) second_IsChunk (at_end refl))

passing : Passes two_chunks 10 1 0
passing = later (omega arith) first_IsChunk (here refl (omega arith) second_IsChunk (at_end refl))

abbrev opened_pool : Heap
opened_pool = record {
  pool = record {
    primary_header = fresh_header 16777216;
    info_slot = λ i. empty_slot;
    zone = λ z. record { backup_header = []; chunk_header = two_chunks };
    content = λ a. 0;
  };
  pool_size = 3671024;
  max_zone = 1;
  zones_exhausted = 0;
  bucket = record { unit_size = 262144; objects = leaf };
  events = [];
}

get_zone_size_idx-exceeds_example :
    65535 < get_zone_size_idx 0 (get_max_zones 20000000000) 20000000000
get_zone_size_idx-exceeds_example =
    get_zone_size_idx-exceeds 20000000000 (omega arith) (omega arith)

calc_units-lt_example : calc_units opened_pool.bucket 300000 * 262144 < 300000
calc_units-lt_example =
    calc_units-lt opened_pool.bucket 300000 (omega arith) (omega arith) (omega arith)

check_zone_iff_example :
    (check_zone two_chunks 10 ≡ true)
    ↔ (Chain two_chunks 10 0 ⊎ ((0 < 10) × ((two_chunks 0).magic ≢ chunk_header_magic)))
check_zone_iff_example = check_zone_iff two_chunks 10 (omega arith)

split_chunk-Leaves_example : check_zone (header opened_pool.pool 0) 10 ≡ true
split_chunk-Leaves_example =
    split_chunk-Leaves 0 1 10 4 opened_pool refl (omega arith) passing (omega arith)
      opened_pool.pool nothing_more

fill_buckets-frees_example :
    (h : Heap) × (fill_buckets opened_pool ≡ some h) × Has 0 (1 ∷ []) opened_pool h
unfolding get_zone_size_idx
fill_buckets-frees_example = fill_buckets-frees opened_pool chained (omega arith) tt

abbrev large_pool : Heap
large_pool = record opened_pool { pool_size = 16777216 }

large-IsHeader : IsHeader large_pool.pool.primary_header
unfolding fresh_header insert_checksum put checksum words fletcher
large-IsHeader = record { long = refl; signed = refl }

large_compatible : can_open_pool large_pool ≡ true
unfolding can_open_pool fresh_header insert_checksum put checksum words fletcher
large_compatible = refl

one_zone : large_pool.max_zone ≡ get_max_zones large_pool.pool_size
unfolding get_max_zones max_zones_from
one_zone = refl

zeros_not_valid : verify_header (replicate 1024 0) ≡ false
unfolding verify_header verify_checksum checksum words fletcher
zeros_not_valid = refl

open-close_example :
    ((open_pmem_storage (reached large_pool (replicate 1024 0))).0 ≡ true)
    × IsOpened (open_pmem_storage (reached large_pool (replicate 1024 0))).1
open-close_example =
    open-close large_pool large-IsHeader large_compatible one_zone (replicate 1024 0) (omega arith)
      (inr zeros_not_valid)

-- A zone that was never used.
abbrev unused_pool : Heap
unused_pool = record large_pool {
  pool = record large_pool.pool {
    zone = λ z. record { backup_header = []; chunk_header = λ c. base_header 0 0 };
  };
}

empty_accepted : (i : ℕ) → i < max_info_slot → check_info_slot empty_slot 16777216 ≡ true
unfolding check_info_slot
empty_accepted i lt = refl

unused_accepted :
    (j : ℕ) → j < 1 → check_zone (λ c. base_header 0 0) (get_zone_size_idx j 1 16777216) ≡ true
unfolding get_zone_size_idx
unused_accepted zero lt =
    (check_zone_iff (λ c. base_header 0 0) 59 (omega arith)).1 (inr (omega arith, λ e. omega arith))
unused_accepted (suc j) lt = absurd (omega arith)

consistency_check-close_example :
    consistency_check (reached unused_pool (replicate 1024 0)).pool 16777216 ≡ true
consistency_check-close_example =
    consistency_check-close unused_pool (replicate 1024 0) large-IsHeader one_zone (omega arith)
      empty_accepted unused_accepted

-- Ten places for arenas, the last of which is empty.
abbrev nine_arenas : Arenas
nine_arenas =
    some 1 ∷ some 1 ∷ some 2 ∷ some 1 ∷ some 1 ∷ some 1 ∷ some 1 ∷ some 1 ∷ some 1 ∷ none ∷ []

pool_select_arena-FirstEmpty_example :
    (AreTaken nine_arenas × (pool_select_arena none nine_arenas ≡ none))
    ⊎ ((i : ℕ) × FirstEmpty nine_arenas i
        × (pool_select_arena none nine_arenas ≡ some (i, set nine_arenas i (some 1))))
pool_select_arena-FirstEmpty_example = pool_select_arena-FirstEmpty nine_arenas
