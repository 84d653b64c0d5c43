-- ===== src/Btt/Block.antt =====
-- Reading, writing and marking one block of an arena: btt_read, btt_write and map_entry_setf of
-- src/libpmemblk/btt.c from the point where the arena and the pre-map LBA are known.
use nvml.Base.{
  ℕ, zero, suc, ◌+◌, ◌*◌, List, [], ◌∷◌, bit_and, bit_or, ◌==◌, ◌&&◌, ◌||◌, not, Bool, false, true,
  take, replicate, if◌then◌else◌,
}
use nvml.Base.Memory.{word}
use nvml.Base.Outcome.{Run, pure, fail, ok, err, hang, eio, ◌>>=◌, ◌>>◌}
use nvml.Namespace.{u32, u64}
use nvml.Btt.{Btt, Dev, Arena, flog_at, flag_error}
use nvml.Btt.Entry.{
  map_entry_is_error, map_entry_is_zero_or_initial, error_entry, zero_entry, entry_lba, normal,
}
use nvml.Btt.Device.{dev_read, dev_write, map_entry_off, set_rtt}
use nvml.Btt.Info.{set_arena_error}
use nvml.Btt.FreeList.{flog_update}
use nvml.Btt.Map.{map_lock, map_unlock}

-- zero_block
abbrev pub zero_block : Btt → List ℕ
zero_block b = replicate b.lbasize 0

-- arenap->dataoff + entry * arenap->internal_lbasize, where the product is a uint32_t
abbrev pub data_block_off : Arena → ℕ → ℕ
data_block_off a entry = u64 (a.dataoff + u32 (entry * a.internal_lbasize))

-- The loop of btt_read from its top. It goes round again when the map entry changed in between;
-- without fuel it would spin.
unfoldable pub read_loop : Btt → ℕ → ℕ → ℕ → ℕ → Run Dev (List ℕ)
read_loop b lane premap zero entry d = (hang, d)
read_loop b lane premap (suc fuel) entry d = elim (map_entry_is_error entry) [
  | true ↦ fail eio d
  | false ↦ elim (map_entry_is_zero_or_initial entry) [
    | true ↦ pure (zero_block b) d
    | false ↦
        let (u, d1) = set_rtt lane entry d in
        let (r, d2) = dev_read 4 (map_entry_off d1.arena premap) d1 in
        elim r [
          | ok bytes ↦ elim (entry == word bytes 0) [
            | true ↦
                let (buf, d3) = dev_read b.lbasize (data_block_off d2.arena entry) d2 in
                (buf, (set_rtt lane error_entry d3).1)
            | false ↦ read_loop b lane premap fuel (word bytes 0) d2
          ]
          | err e ↦ (err e, (set_rtt lane error_entry d2).1)
          | hang ↦ (hang, d2)
        ]
  ]
]

-- btt_read in its arena. The second round would be for an entry that another thread changed.
unfoldable pub read_block : Btt → ℕ → ℕ → Run Dev (List ℕ)
read_block b lane premap d =
    (do bytes ← dev_read 4 (map_entry_off d.arena premap); read_loop b lane premap 2 (word bytes 0))
      d

-- Whether one of the first `nlane` slots of the read tracking table holds the entry.
unfoldable pub being_read : List ℕ → ℕ → Bool
being_read [] entry = false
being_read (r ∷ rtt) entry = r == entry || being_read rtt entry

-- The block that the lane's flog frees, as a map entry.
abbrev pub free_entry : Arena → ℕ → ℕ
free_entry a lane = normal (entry_lba (flog_at a lane).flog.old_map)

-- btt_write in its arena.
unfoldable pub write_block : Btt → ℕ → ℕ → List ℕ → Run Dev (Unit {0})
write_block b lane premap buf d =
    let free = free_entry d.arena lane in
    if not (bit_and d.arena.flags flag_error == 0)
    then fail eio d
    else if being_read (take b.nlane d.arena.rtt) free
    then (hang, d)
    else (do
      dev_write buf (data_block_off d.arena (entry_lba free))
      old_entry ← map_lock premap
      flog_update lane premap old_entry free
      λ e.
          let (r, e') = map_unlock free premap e in
          elim r [
            | ok u ↦ (ok tt, e')
            | err x ↦ (err eio, (set_arena_error b e').1)
            | hang ↦ (hang, e')
          ])
        d

-- map_entry_setf in its arena; btt_set_zero and btt_set_error are its two uses.
unfoldable pub setf_block : ℕ → ℕ → Run Dev (Unit {0})
setf_block premap setf d =
    if not (bit_and d.arena.flags flag_error == 0)
    then fail eio d
    else (do
      old_entry ← map_lock premap
      if setf == zero_entry && map_entry_is_zero_or_initial old_entry
          then pure tt
          else map_unlock (bit_or (entry_lba old_entry) setf) premap)
        d
