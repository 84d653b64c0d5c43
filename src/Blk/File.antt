-- ===== src/Blk/File.antt =====
-- pmemblk_create, pmemblk_open and pmemblk_check of src/libpmemblk/blk.c, with util_pool_create and
-- util_pool_open of src/common/util.c on a file that the system lets them open.
use nvml.Base.{ℕ, Bool, true, false, ltb, not, ◌==◌, if◌then◌else◌}
use nvml.Base.Memory.{Mem}
use nvml.Base.Outcome.{Result, ok, err, hang, einval}
use nvml.Btt.Check.{btt_check}
use nvml.Blk.{Pool}
use nvml.Blk.Open.{Outside, map_common}

-- A file: its bytes and its size.
pub record PoolFile : Type 0 where
  pub bytes : Mem
  pub size : ℕ

-- PMEMBLK_MIN_POOL
abbrev pub min_pool : ℕ
min_pool = 16785408

-- util_pool_create: a new file of zeros.
abbrev pub util_pool_create : ℕ → Result PoolFile
util_pool_create size =
    if ltb size min_pool then err einval else ok (record { bytes = λ a. 0; size = size })

abbrev pub util_pool_open : PoolFile → Result PoolFile
util_pool_open file = if ltb file.size min_pool then err einval else ok file

-- A call on the mapped file, if there is one; `old` are the bytes there were.
abbrev pub on_file : Mem → Result PoolFile → (PoolFile → Result Pool × Mem) → Result Pool × Mem
on_file old (ok file) call = call file
on_file old (err e) call = (err e, old)
on_file old hang call = (hang, old)

-- pmemblk_create: a new file if a size is given, and otherwise an existing one.
unfoldable pub create_file : Outside → ℕ → ℕ → PoolFile → Result Pool × Mem
create_file o bsize poolsize file =
    if not (poolsize == 0)
    then on_file file.bytes (util_pool_create poolsize)
        (λ f. map_common o poolsize bsize false true true f.bytes)
    else on_file file.bytes (util_pool_open file)
        (λ f. map_common o f.size bsize false true false f.bytes)

-- pmemblk_open
unfoldable pub open_file : Outside → ℕ → PoolFile → Result Pool × Mem
open_file o bsize file =
    on_file file.bytes (util_pool_open file)
      (λ f. map_common o f.size bsize false false false f.bytes)

abbrev pub verdict : Result Pool → Result Bool
verdict (ok p) = (btt_check p.table).0
verdict (err e) = err e
verdict hang = hang

-- pmemblk_check: the mapping is private, and the file stays as it is.
unfoldable pub check_file : Outside → PoolFile → Result Bool
check_file o file =
    verdict
      (on_file file.bytes (util_pool_open file)
        (λ f. map_common o f.size 0 true false false f.bytes)).0
