-- ===== src/Btt/Geometry.antt =====
-- The arithmetic of write_layout in src/libpmemblk/btt.c: how many arenas a namespace has, and
-- where the regions of an arena are.
use nvml.Base.{ℕ, ◌+◌, ◌-◌, ◌*◌, ◌/◌, ◌%◌, Option, none, some, ltb, leb, min, if◌then◌else◌}
use nvml.Namespace.{u64, u32, sub64}
use nvml.Btt.{info_size, flog_pair_align, map_entry_size}

abbrev pub btt_alignment : ℕ
btt_alignment = 4096

abbrev pub btt_min_size : ℕ
btt_min_size = 16777216

abbrev pub btt_max_arena : ℕ
btt_max_arena = 549755813888

abbrev pub btt_min_lba_size : ℕ
btt_min_lba_size = 512

abbrev pub internal_lba_alignment : ℕ
internal_lba_alignment = 256

abbrev pub default_nfree : ℕ
default_nfree = 256

-- roundup(x, n) over uint64_t and over uint32_t
abbrev pub roundup64 : ℕ → ℕ → ℕ
roundup64 x n = u64 (x + (n - 1)) / n * n

abbrev pub roundup32 : ℕ → ℕ → ℕ
roundup32 x n = u32 (x + (n - 1)) / n * n

-- bttp->narena
unfoldable pub count_arenas : ℕ → ℕ
count_arenas rawsize =
    if leb btt_min_size (rawsize % btt_max_arena)
    then rawsize / btt_max_arena + 1
    else rawsize / btt_max_arena

-- The bytes of an arena's flog. They are an int, which no nfree in use comes near to filling.
unfoldable pub flog_area : ℕ → ℕ
flog_area nfree = roundup64 (u32 (nfree * flog_pair_align)) btt_alignment

-- `none`: the size wrapped, EINVAL.
unfoldable pub adjust_lbasize : ℕ → Option ℕ
adjust_lbasize lbasize =
    let adjusted =
      roundup32 (if ltb lbasize btt_min_lba_size then btt_min_lba_size else lbasize)
        internal_lba_alignment in
    if ltb adjusted internal_lba_alignment then none else some adjusted

-- What one round of write_layout computes. Offsets are relative to the start of the arena.
pub record Plan : Type 0 where
  pub arena_rawsize : ℕ
  pub internal_lbasize : ℕ
  pub internal_nlba : ℕ
  pub external_nlba : ℕ
  pub mapsize : ℕ
  pub nextoff : ℕ
  pub dataoff : ℕ
  pub mapoff : ℕ
  pub flogoff : ℕ
  pub infooff : ℕ

-- The size of the arena that comes first in the bytes left.
abbrev pub first_size : ℕ → ℕ
first_size rawsize = min rawsize btt_max_arena

-- The number of its blocks.
unfoldable pub count_blocks : ℕ → ℕ → ℕ → ℕ
count_blocks nfree internal_lbasize arena_rawsize =
    let arena_datasize = sub64 (sub64 arena_rawsize (2 * info_size)) (flog_area nfree) in
    sub64 arena_datasize btt_alignment / u32 (internal_lbasize + map_entry_size)

-- `none`: there are fewer than 2 * nfree blocks, EINVAL.
unfoldable pub plan_arena : ℕ → ℕ → ℕ → Option Plan
plan_arena nfree internal_lbasize rawsize =
    let arena_rawsize = first_size rawsize in
    let internal_nlba = count_blocks nfree internal_lbasize arena_rawsize in
    let external_nlba = sub64 internal_nlba nfree in
    let mapsize = roundup64 (u64 (external_nlba * map_entry_size)) btt_alignment in
    let infooff = sub64 arena_rawsize info_size in
    let flogoff = sub64 infooff (flog_area nfree) in
    if ltb internal_nlba (u32 (2 * nfree))
    then none
    else some (record {
      arena_rawsize = arena_rawsize;
      internal_lbasize = internal_lbasize;
      internal_nlba = internal_nlba;
      external_nlba = external_nlba;
      mapsize = mapsize;
      nextoff = if leb btt_min_size (rawsize - arena_rawsize) then arena_rawsize else 0;
      dataoff = info_size;
      mapoff = sub64 flogoff mapsize;
      flogoff = flogoff;
      infooff = infooff;
    })
