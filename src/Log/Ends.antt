-- ===== src/Log/Ends.antt =====
-- pmemlog_tell, pmemlog_nbyte and pmemlog_rewind of src/libpmemlog/log.c.
use nvml.Base.{◌≡◌, refl, [], length, false, arith}
use nvml.Base.Words64.{get64-lt}
use nvml.Base.Memory.{le64, load}
use nvml.Base.Outcome.{ok}
use nvml.Log.{Log, data_start, write_off, copy_in, tell, nbyte, rewind, persist}
use nvml.Log.View.{IsLog, contents, capacity}
use nvml.Log.Append.{length-contents, moved-IsLog, contents-moved}

-- In a well-formed log pmemlog_tell gives the number of bytes appended so far, and pmemlog_nbyte
-- the capacity.
pub tell-contents : (l : Log) → IsLog l → (tell l ≡ length (contents l)) × (nbyte l ≡ capacity l)
unfolding tell nbyte
tell-contents l g = (
  omega (arith, g, length-contents l, get64-lt l.mem 4112, get64-lt l.mem 4104),
  omega (arith, g, get64-lt l.mem 4104),
)

rewind_lem :
    (l : Log) (g : IsLog l)
    → l.rdonly ≡ false
    → rewind l ≡ (ok tt, copy_in write_off (le64 data_start) l)
unfolding rewind persist
rewind_lem l g writable = ground (arith, g.starts)

-- Rewinding a writable, well-formed log succeeds and leaves a well-formed log of the same capacity
-- with no bytes in it.
pub rewind-contents :
    (l : Log)
    → IsLog l
    → l.rdonly ≡ false
    → let (r, l') = rewind l in
      (r ≡ ok tt) × IsLog l' × (contents l' ≡ []) × (capacity l' ≡ capacity l)
unfolding load
rewind-contents l g writable = rw (rewind_lem l g writable) (
  refl,
  moved-IsLog l g data_start (omega arith) (omega (arith, g)),
  contents-moved l g data_start (omega arith) (omega (arith, g)),
  refl,
)
