-- ===== src/Btt/Info.antt =====
-- The arena info block of src/libpmemblk/btt.c: setting a flag in it.
use nvml.Base.{ℕ, List, ◌+◌, bit_or, not, if◌then◌else◌}
use nvml.Base.Memory.{word, le32}
use nvml.Base.Outcome.{Run, pure, ◌>>=◌, ◌>>◌}
use nvml.Checksum.{put, field64, insert_checksum}
use nvml.Namespace.{u64}
use nvml.Btt.{Btt, Dev, info_size, info_flags_off, info_infooff_off, info_checksum_off, flag_error}
use nvml.Btt.Device.{dev_read, dev_write, or_flags}

-- The info block with the flags set and its checksum brought up to date.
unfoldable pub flagged_info : List ℕ → ℕ → List ℕ
flagged_info info setf =
    insert_checksum (put info info_flags_off (le32 (bit_or (word info info_flags_off) setf)))
      info_checksum_off

unfoldable pub arena_setf : Btt → ℕ → Run Dev (Unit {0})
arena_setf b setf d =
    (do
      or_flags setf
      λ e.
          if not b.laidout
          then pure tt e
          else (do
            info ← dev_read info_size e.arena.startoff
            dev_write (flagged_info info setf) e.arena.startoff
            dev_write (flagged_info info setf)
                (u64 (e.arena.startoff + field64 info info_infooff_off)))
              e)
      d

unfoldable pub set_arena_error : Btt → Run Dev (Unit {0})
set_arena_error b = arena_setf b flag_error
