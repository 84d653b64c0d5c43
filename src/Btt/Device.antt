-- ===== src/Btt/Device.antt =====
-- The calls that an arena's code makes on its namespace, and its reads and writes of `*arenap`.
use nvml.Base.{ℕ, List, ◌+◌, ◌*◌, bit_or, set}
use nvml.Base.Outcome.{Run, pure}
use nvml.Namespace.{nsread, nswrite, u32, u64}
use nvml.Btt.{Arena, FlogRuntime, Dev, map_entry_size}

-- (*bttp->ns_cbp->nsread)
unfoldable pub dev_read : ℕ → ℕ → Run Dev (List ℕ)
dev_read count off d = let (r, ns') = nsread count off d.ns in (r, record d { ns = ns' })

-- (*bttp->ns_cbp->nswrite)
unfoldable pub dev_write : List ℕ → ℕ → Run Dev (Unit {0})
dev_write buf off d = let (r, ns') = nswrite buf off d.ns in (r, record d { ns = ns' })

-- arenap->mapoff + BTT_MAP_ENTRY_SIZE * premap_lba, where the product is a uint32_t
abbrev pub map_entry_off : Arena → ℕ → ℕ
map_entry_off a premap = u64 (a.mapoff + u32 (map_entry_size * premap))

-- arenap->flags |= setf
abbrev pub or_flags : ℕ → Run Dev (Unit {0})
or_flags setf d =
    pure tt (record d { arena = record (d.arena) { flags = bit_or d.arena.flags setf } })

-- arenap->flogs[lane] = rt
abbrev pub set_flog : ℕ → FlogRuntime → Run Dev (Unit {0})
set_flog lane rt d =
    pure tt (record d { arena = record (d.arena) { flogs = set d.arena.flogs lane rt } })

-- arenap->rtt[lane] = entry
abbrev pub set_rtt : ℕ → ℕ → Run Dev (Unit {0})
set_rtt lane entry d =
    pure tt (record d { arena = record (d.arena) { rtt = set d.arena.rtt lane entry } })
