-- ===== src/Btt/Bounds.antt =====
-- The regions that write_layout plans for an arena are in order, aligned, and large enough.
use nvml.Base.{
  ℕ, ◌+◌, ◌-◌, ◌*◌, ◌/◌, ◌%◌, ◌^◌, ◌≤◌, ◌<◌, ◌≡◌, refl, ap, some, leb, if◌then◌else◌, arith,
}
use nvml.Namespace.{u64, u32, sub64}
use nvml.Btt.Geometry.{
  Plan, plan_arena, count_blocks, adjust_lbasize, flog_area, btt_min_size, btt_max_arena, roundup64,
  first_size,
}
use native.Mathlib.Nat.{div-mul-le_self}

-- The plan of an arena: info block, data, map, flog and second info block follow one another.
pub record IsPlanned (nfree rawsize : ℕ) (p : Plan) : Type 0 where
  pub data_start : p.dataoff ≡ 4096
  pub data_end : p.dataoff + p.internal_nlba * p.internal_lbasize ≤ p.mapoff
  pub map_end : p.mapoff + p.mapsize ≡ p.flogoff
  pub map_fits : 4 * p.external_nlba ≤ p.mapsize
  pub flog_fits : p.flogoff + 64 * nfree ≤ p.infooff
  pub flog_end : p.flogoff + flog_area nfree ≡ p.infooff
  pub info_end : p.infooff + 4096 ≡ p.arena_rawsize
  pub size_le : p.arena_rawsize ≤ rawsize
  pub blocks : p.internal_nlba ≡ p.external_nlba + nfree
  pub enough_free : nfree ≤ p.external_nlba
  pub blocks_small : p.internal_nlba ≤ 2 ^ 30
  pub map_aligned : rawsize % 4096 ≡ 0 → p.mapoff % 4096 ≡ 0
  pub flog_aligned : rawsize % 4096 ≡ 0 → p.flogoff % 4096 ≡ 0

flog_area_fits : (nfree : ℕ) → nfree ≤ 2 ^ 16 → 64 * nfree ≤ flog_area nfree
unfolding flog_area
flog_area_fits nfree small = omega arith

flog_area_aligned : (nfree : ℕ) → flog_area nfree % 4096 ≡ 0
unfolding flog_area
flog_area_aligned nfree = omega arith

-- Blocks of `size` bytes with their map entries fit in the bytes that are left for them.
module _ (nfree size raw : ℕ) (flog_small : flog_area nfree ≤ 2 ^ 22) (size_lo : 512 ≤ size)
    (size_hi : size + 4 < 2 ^ 32) (raw_lo : btt_min_size ≤ raw) (raw_hi : raw ≤ btt_max_arena) where
  count : ℕ
  count = (raw - 8192 - flog_area nfree - 4096) / (size + 4)

  count_blocks_lem : count_blocks nfree size raw ≡ count
  unfolding count_blocks count
  count_blocks_lem =
      let e : u32 (size + 4) ≡ size + 4 = omega arith in
      rw e (ap (λ t. t / (size + 4)) (omega arith))

  count_fits : count * size + count * 4 ≤ raw - 8192 - flog_area nfree - 4096
  unfolding count
  count_fits = grind (arith, div-mul-le_self (raw - 8192 - flog_area nfree - 4096) (size + 4))

  count_small : count ≤ 2 ^ 30
  count_small = grind (arith, count_fits)

-- adjust_lbasize gives a block size that holds the LBA, at least 512 and a multiple of 256.
pub adjust_lbasize_lem :
    (lbasize size : ℕ)
    → lbasize < 2 ^ 32
    → adjust_lbasize lbasize ≡ some size
    → (512 ≤ size) × (lbasize ≤ size) × (size % 256 ≡ 0) × (size + 4 < 2 ^ 32)
unfolding adjust_lbasize
adjust_lbasize_lem lbasize size lt e = ground arith

-- If an arena that write_layout lays out in the bytes left has at least 2 * nfree blocks of a size
-- that adjust_lbasize gives, its plan puts info block, data, map, flog and second info block one
-- behind the other without an overlap, and the regions hold all that they are for; with a multiple of
-- 4096 bytes left, map and flog start at one.
pub plan_arena-IsPlanned :
    (nfree lbasize size rawsize : ℕ)
    → nfree ≤ 2 ^ 16
    → flog_area nfree ≤ 2 ^ 22
    → lbasize < 2 ^ 32
    → adjust_lbasize lbasize ≡ some size
    → btt_min_size ≤ rawsize
    → 2 * nfree ≤ count_blocks nfree size (first_size rawsize)
    → (p : Plan) × (plan_arena nfree size rawsize ≡ some p)
      × (p.internal_lbasize ≡ size)
      × IsPlanned nfree rawsize p
unfolding plan_arena
plan_arena-IsPlanned nfree lbasize size rawsize n_small flog_small lt e lo enough =
    (plan, ground arith, refl, planned enough)
  where
    raw : ℕ
    raw = first_size rawsize

    blocks : ℕ
    blocks = count_blocks nfree size raw

    plan : Plan
    plan = record {
      arena_rawsize = raw;
      internal_lbasize = size;
      internal_nlba = blocks;
      external_nlba = sub64 blocks nfree;
      mapsize = roundup64 (u64 (sub64 blocks nfree * 4)) 4096;
      nextoff = if leb btt_min_size (rawsize - raw) then raw else 0;
      dataoff = 4096;
      mapoff =
          sub64 (sub64 (sub64 raw 4096) (flog_area nfree))
            (roundup64 (u64 (sub64 blocks nfree * 4)) 4096);
      flogoff = sub64 (sub64 raw 4096) (flog_area nfree);
      infooff = sub64 raw 4096;
    }

    bounds : (512 ≤ size) × (lbasize ≤ size) × (size % 256 ≡ 0) × (size + 4 < 2 ^ 32)
    bounds = adjust_lbasize_lem lbasize size lt e

    fits : blocks * size + blocks * 4 ≤ raw - 8192 - flog_area nfree - 4096
    fits =
        rw
          (count_blocks_lem nfree size raw flog_small bounds.0 bounds.3 (omega arith) (omega arith))
          (count_fits nfree size raw flog_small bounds.0 bounds.3 (omega arith) (omega arith))

    small : blocks ≤ 2 ^ 30
    small =
        rw
          (count_blocks_lem nfree size raw flog_small bounds.0 bounds.3 (omega arith) (omega arith))
          (count_small nfree size raw flog_small bounds.0 bounds.3 (omega arith) (omega arith))

    planned : 2 * nfree ≤ blocks → IsPlanned nfree rawsize plan
    planned enough = record {
      data_start = refl;
      data_end = omega (arith, fits, small);
      map_end = omega (arith, fits, small);
      map_fits = omega (arith, fits, small);
      flog_fits = omega (arith, fits, small, flog_area_fits nfree n_small);
      flog_end = omega (arith, fits, small);
      info_end = omega arith;
      size_le = omega arith;
      blocks = omega (arith, fits, small);
      enough_free = omega (arith, fits, small);
      blocks_small = small;
      map_aligned = λ al. omega (arith, fits, small, flog_area_aligned nfree);
      flog_aligned = λ al. omega (arith, fits, small, flog_area_aligned nfree);
    }
