-- ===== src/Blk/Open.antt =====
-- pmemblk_map_common of src/libpmemblk/blk.c on a mapped file, and the calls that use it.
use nvml.Base.{
  ℕ, ◌+◌, ◌-◌, ◌*◌, List, [], ◌∷◌, Bool, true, false, ltb, not, ◌==◌, ◌&&◌, if◌then◌else◌,
}
use nvml.Base.Memory.{Mem, load, store, word, get32, le32}
use nvml.Base.Outcome.{Run, pure, fail, ok, err, hang, einval}
use nvml.Namespace.{Ns, u32}
use nvml.Header.{
  convert_hdr, feature_check, unknown_incompat, unknown_ro_compat, supported, is_zeroed, new_hdr,
  hdr_size, hdr_major_off, hdr_uuid_off,
}
use nvml.Btt.InfoBlock.{same_at}
use nvml.Btt.Table.{btt_nlane}
use nvml.Btt.Layout.{btt_init}
use nvml.Blk.{Pool}

-- BLK_HDR_SIG, "PMEMBLK"
abbrev pub blk_signature : List ℕ
blk_signature = 80 ∷ 77 ∷ 69 ∷ 77 ∷ 66 ∷ 76 ∷ 75 ∷ 0 ∷ []

abbrev pub blk_major : ℕ
blk_major = 1

-- The offsets of the fields of `struct pmemblk`, and of the data area behind it.
abbrev pub bsize_off : ℕ
bsize_off = 4096

abbrev pub is_zeroed_off : ℕ
is_zeroed_off = 4100

abbrev pub data_off : ℕ
data_off = 8192

-- What is outside: the UUID that is generated, the time and the number of processors.
pub record Outside : Type 0 where
  pub uuid : List ℕ
  pub crtime : ℕ
  pub ncpus : ℕ

-- The checks on an existing pool: its block size, and whether it is to be read-only.
unfoldable pub check_pool : ℕ → Bool → Run Mem (ℕ × Bool)
check_pool bsize rdonly m =
    let hdr = load m 0 hdr_size in
    let hdr_bsize = get32 m bsize_off in
    if not (convert_hdr hdr)
    then fail einval m
    else if not (same_at hdr 0 blk_signature)
    then fail einval m
    else if not (word hdr hdr_major_off == blk_major)
    then fail einval m
    else if not (bsize == 0) && not (bsize == hdr_bsize)
    then fail einval m
    else elim (feature_check hdr 0 0) [
      | unknown_incompat ↦ fail einval m
      | unknown_ro_compat ↦ pure (hdr_bsize, true) m
      | supported ↦ pure (hdr_bsize, rdonly) m
    ]

abbrev pub bool_byte : Bool → ℕ
bool_byte true = 1
bool_byte false = 0

-- The metadata of a new pool.
unfoldable pub initialize_pool : Outside → ℕ → Bool → Run Mem (ℕ × Bool)
initialize_pool o bsize zeroed m =
    if not (is_zeroed (load m 0 hdr_size))
    then fail einval m
    else if bsize == 0
    then fail einval m
    else let described =
        store (store m bsize_off (le32 bsize)) is_zeroed_off (bool_byte zeroed ∷ []) in
      pure (bsize, false) (store described 0 (new_hdr blk_signature blk_major o.uuid o.crtime))

-- The data area of the mapping, and the mapping with that area changed.
abbrev pub data_area : Mem → Mem
data_area m a = m (data_off + a)

abbrev pub with_data_area : Mem → Mem → Mem
with_data_area m area a = if ltb a data_off then m a else area (a - data_off)

unfoldable pub pool_of : Outside → ℕ → ℕ → Bool → Run Mem Pool
pool_of o poolsize bsize rdonly m =
    let ns : Ns = record {
      mem = data_area m;
      datasize = poolsize - data_off;
      is_zeroed = not (m is_zeroed_off == 0);
      journal = [];
    } in
    let (r, ns') =
      btt_init (poolsize - data_off) (u32 bsize) (load m hdr_uuid_off 16) (o.ncpus * 2) ns in
    elim r [
      | ok t ↦ (
        ok (record { table = t; rdonly = rdonly; nlane = btt_nlane t.btt; next_lane = 0 }),
        with_data_area m ns'.mem,
      )
      | err e ↦ (err e, with_data_area m ns'.mem)
      | hang ↦ (hang, with_data_area m ns'.mem)
    ]

-- The state is the mapping, which a read-only pool does not share with its file.
unfoldable pub map_common : Outside → ℕ → ℕ → Bool → Bool → Bool → Run Mem Pool
map_common o poolsize bsize rdonly initialize zeroed m =
    let (r, m') =
      if initialize then initialize_pool o bsize zeroed m else check_pool bsize rdonly m in
    elim r [
      | ok (size, ro) ↦ pool_of o poolsize size ro m'
      | err e ↦ (err e, m')
      | hang ↦ (hang, m')
    ]
