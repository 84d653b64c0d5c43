-- ===== src/Log/Validate.antt =====
-- The tests of pmemlog_check and pmemlog_map_common on the offsets in the pool descriptor, of
-- src/libpmemlog/log.c.
use nvml.Base.{◌^◌, ◌≤◌, ◌<◌, ◌≡◌, ◌↔◌, refl, ◌∙◌, inr, [], true, if◌then◌else◌, arith}
use nvml.Base.Memory.{Mem, load, le64, store}
use nvml.Base.Words64.{get64-store-le64, get64-store-Apart}
use nvml.Base.Outcome.{ok, err, einval}
use nvml.Log.{
  Log, start_off, end_off, write_off, start_offset, end_offset, write_offset, data_start, check,
  check_offsets, format,
}
use nvml.Log.View.{IsLog, contents}

-- The tests of pmemlog_check on the offsets of a pool it has mapped are passed exactly by a
-- well-formed log.
pub check-IsLog : (l : Log) → (check l ≡ true) ↔ IsLog l
unfolding check
check-IsLog l = (
  λ h. record {
    starts = ground arith;
    ends = ground arith;
    above = ground arith;
    below = ground arith;
  },
  λ g. ground (arith, g.starts, g.ends, g.above, g.below),
)

-- The tests of pmemlog_map_common on the offsets of an existing pool pass those that the tests of
-- pmemlog_check pass, and otherwise the call fails with EINVAL.
pub check_offsets-check :
    (l : Log) → check_offsets l.size l ≡ (if check l then ok tt else err einval, l)
unfolding check check_offsets
check_offsets-check l = ground arith

-- Creating a pool of at least the size of its descriptor makes a well-formed log with no bytes in
-- it, whatever the file held.
pub format-IsLog :
    (l : Log)
    → data_start ≤ l.size
    → l.size < 2 ^ 64
    → IsLog (format l.size l) × (contents (format l.size l) ≡ [])
unfolding format load
format-IsLog l le lt = (
  record { starts = starts; ends = ends; above = rw writes (omega arith); below = rw writes le },
  rw writes refl,
)
  where
    started : Mem
    started = store l.mem start_off (le64 data_start)

    ended : Mem
    ended = store started end_off (le64 l.size)

    starts : start_offset (format l.size l) ≡ data_start
    starts =
        get64-store-Apart ended write_off (le64 data_start) start_off (inr (omega arith))
        ∙ get64-store-Apart started end_off (le64 l.size) start_off (inr (omega arith))
        ∙ get64-store-le64 l.mem start_off data_start (omega arith)

    ends : end_offset (format l.size l) ≡ l.size
    ends =
        get64-store-Apart ended write_off (le64 data_start) end_off (inr (omega arith))
        ∙ get64-store-le64 started end_off l.size lt

    writes : write_offset (format l.size l) ≡ data_start
    writes = get64-store-le64 ended write_off data_start (omega arith)
