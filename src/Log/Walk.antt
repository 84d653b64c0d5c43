-- ===== src/Log/Walk.antt =====
-- pmemlog_walk of src/libpmemlog/log.c. The callback is a parameter: it takes a chunk and its
-- argument, and says whether to go on.
use nvml.Base.{ℕ, zero, suc, ◌+◌, ◌-◌, List, Bool, ltb, ◌==◌, min, if◌then◌else◌}
use nvml.Base.Memory.{Mem, load}
use nvml.Base.Outcome.{Result, ok, hang}
use nvml.Namespace.{u64, sub64}
use nvml.Log.{Log, start_offset, write_offset}

module _ {ℓ} {A : Type ℓ} (process_chunk : List ℕ → A → Bool × A) where
  -- The loop from `data_offset`, here `off`, on.
  unfoldable pub walk_from : ℕ → Mem → ℕ → ℕ → ℕ → A → Result A
  walk_from zero m chunksize write off arg = hang
  walk_from (suc fuel) m chunksize write off arg =
      let (more, arg') = process_chunk (load m off (min chunksize (write - off))) arg in
      let rest = walk_from fuel m chunksize write (u64 (off + chunksize)) arg' in
      if ltb off write then if more then rest else ok arg' else ok arg

  -- Each round takes at least a byte, so the write offset bounds the rounds.
  unfoldable pub walk : ℕ → Log → A → Result A
  walk chunksize l arg =
      let s = start_offset l in
      let w = write_offset l in
      if chunksize == 0
      then ok (process_chunk (load l.mem s (sub64 w s)) arg).1
      else walk_from (suc w) l.mem chunksize w s arg
