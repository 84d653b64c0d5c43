-- ===== src/Log.antt =====
-- src/libpmemlog/log.c and log.h: a log that is appended to. The mapped pool is a memory, and the
-- fields of `struct pmemlog` on the media are the words of it behind the pool header. A store is
-- durable when the call returns. The lock of the pool is left out: each call runs alone.
pub mod Walk
pub mod View
pub mod Append
pub mod Gather
pub mod Ends
pub mod Validate
pub mod Chunks
pub mod Open
pub mod Crash
pub mod Create
pub mod File
mod Tests
use nvml.Base.{
  ℕ, ◌+◌, ◌-◌, ◌%◌, ◌^◌, List, [], ◌∷◌, Bool, false, true, length, ltb, leb, ◌==◌, ◌&&◌, not,
  if◌then◌else◌,
}
use nvml.Base.Memory.{Mem, load, store, get64, le64}
use nvml.Base.Outcome.{Run, Result, pure, fail, ok, err, hang, einval, erofs, enospc, ◌>>=◌}
use nvml.Namespace.{u64, sub64}

pub record Log : Type 0 where
  pub mem : Mem
  pub size : ℕ
  pub rdonly : Bool

-- The places of the fields, behind a pool header of 4096 bytes.
abbrev pub start_off : ℕ
start_off = 4096

abbrev pub end_off : ℕ
end_off = 4104

abbrev pub write_off : ℕ
write_off = 4112

-- roundup(sizeof (struct pmemlog), LOG_FORMAT_DATA_ALIGN)
abbrev pub data_start : ℕ
data_start = 8192

abbrev pub start_offset : Log → ℕ
start_offset l = get64 l.mem start_off

abbrev pub end_offset : Log → ℕ
end_offset l = get64 l.mem end_off

abbrev pub write_offset : Log → ℕ
write_offset l = get64 l.mem write_off

-- memcpy into the pool
abbrev pub copy_in : ℕ → List ℕ → Log → Log
copy_in off buf l = record l { mem = store l.mem off buf }

-- pmemlog_persist, and the store of pmemlog_rewind
unfoldable pub persist : ℕ → Run Log (Unit {0})
persist new_write_offset l = pure tt (copy_in write_off (le64 new_write_offset) l)

unfoldable pub append : List ℕ → Run Log (Unit {0})
append buf l =
    let w = write_offset l in
    let e = end_offset l in
    if l.rdonly
    then fail erofs l
    else if leb e w
    then fail enospc l
    else if ltb (e - w) (length buf)
    then fail enospc l
    else persist (u64 (w + length buf)) (copy_in w buf l)

-- The space that the buffers of appendv need.
unfoldable pub space : List (List ℕ) → ℕ → ℕ
space [] count = count
space (buf ∷ iov) count = space iov (u64 (count + length buf))

-- The copies of appendv: the write offset behind them, and the pool.
unfoldable pub copy_all : List (List ℕ) → ℕ → Log → ℕ × Log
copy_all [] w l = (w, l)
copy_all (buf ∷ iov) w l = copy_all iov (u64 (w + length buf)) (copy_in w buf l)

unfoldable pub appendv : List (List ℕ) → Run Log (Unit {0})
appendv iov l =
    let w = write_offset l in
    let e = end_offset l in
    if l.rdonly
    then fail erofs l
    else if leb e w
    then fail enospc l
    else if ltb (e - w) (space iov 0)
    then fail enospc l
    else let (w', l') = copy_all iov w l in persist w' l'

unfoldable pub tell : Log → ℕ
tell l = sub64 (write_offset l) (start_offset l)

unfoldable pub nbyte : Log → ℕ
nbyte l = sub64 (end_offset l) (start_offset l)

unfoldable pub rewind : Run Log (Unit {0})
rewind l = if l.rdonly then fail erofs l else persist (start_offset l) l

-- The tests of pmemlog_check on the pool descriptor.
unfoldable pub check : Log → Bool
check l =
    (start_offset l == data_start)
    && (end_offset l == l.size)
    && not (ltb (end_offset l) (start_offset l))
    && not (ltb (write_offset l) (start_offset l))
    && not (ltb (end_offset l) (write_offset l))

-- The tests of pmemlog_map_common on the offsets of an existing pool: EINVAL, or the pool is taken.
unfoldable pub check_offsets : ℕ → Run Log (Unit {0})
check_offsets poolsize l =
    if not (start_offset l == data_start)
    then fail einval l
    else if not (end_offset l == poolsize)
    then fail einval l
    else if ltb (end_offset l) (start_offset l)
    then fail einval l
    else if ltb (end_offset l) (write_offset l)
    then fail einval l
    else if ltb (write_offset l) (start_offset l)
    then fail einval l
    else pure tt l

-- The metadata that pmemlog_map_common writes for a new pool.
unfoldable pub format : ℕ → Log → Log
format poolsize l =
    copy_in write_off (le64 data_start)
      (copy_in end_off (le64 poolsize) (copy_in start_off (le64 data_start) l))
