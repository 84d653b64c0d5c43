-- ===== src/Btt/Map.antt =====
-- The map of an arena in src/libpmemblk/btt.c: reading an entry under its lock, and writing it.
use nvml.Base.{ℕ, if◌then◌else◌}
use nvml.Base.Memory.{word, le32}
use nvml.Base.Outcome.{Run, pure, ◌>>=◌}
use nvml.Btt.{Dev}
use nvml.Btt.Entry.{map_entry_is_initial, normal}
use nvml.Btt.Device.{dev_read, dev_write, map_entry_off}

-- map_lock, the lock itself left out: the entry, an initial one as the block of the same number.
unfoldable pub map_lock : ℕ → Run Dev ℕ
map_lock premap d =
    (do
      bytes ← dev_read 4 (map_entry_off d.arena premap)
      let entry = word bytes 0
      pure (if map_entry_is_initial entry then normal premap else entry))
      d

-- map_unlock
unfoldable pub map_unlock : ℕ → ℕ → Run Dev (Unit {0})
map_unlock entry premap d = dev_write (le32 entry) (map_entry_off d.arena premap) d
