-- ===== src/Btt/Write.antt =====
-- btt_write in a laid out and consistent arena.
use nvml.Base.{ℕ, ◌+◌, ◌<◌, ◌≡◌, ◌≢◌, ap, ◌∙◌, List, length, bit_and, take, false, arith}
use nvml.Base.Memory.{le32}
use nvml.Base.Outcome.{ok}
use nvml.Btt.{Btt, Dev, Arena, flag_error}
use nvml.Btt.Entry.{entry_lba, entry_lba-mod}
use nvml.Btt.Device.{dev_write}
use nvml.Btt.FreeList.{flog_update}
use nvml.Btt.Map.{map_lock}
use nvml.Btt.Block.{write_block, being_read, data_block_off}
use nvml.Btt.View.{IsLaidOut, IsConsistent, free_of, contents}
use nvml.Btt.Access.{stored, dev_write_lem, data_block_off_lba}
use nvml.Btt.Steps.{
  locked, IsLaidOut-set, with_flog, free_entry_lem, map_lock_lem, map_unlock_lem, flog_update_lem,
}
use nvml.Btt.Stores.{
  data_at, slot_at, map_at, new_entry, old_entry, new_runtime, first_half, second_half, mem1, mem2,
  mem3, mem4, regions, touched4, map1, map4, slot4, contents4,
}
use nvml.Btt.Touched.{contents_other}
use nvml.Btt.Commit.{committed-IsConsistent}

-- The device when the four stores are done.
abbrev pub wrote : Dev → ℕ → ℕ → List ℕ → Dev
wrote d lane i buf =
    stored
      (with_flog
        (stored
          (stored (stored d (data_at d.arena lane) buf) (slot_at d.arena lane)
            (first_half d.arena d.ns.mem i))
          (slot_at d.arena lane + 8) (second_half d.arena lane))
        lane (new_runtime d.arena d.ns.mem lane i))
      (map_at d.arena i) (le32 (new_entry d.arena lane))

module _ (b : Btt) (d : Dev) (lane i : ℕ) (buf : List ℕ) (g : IsLaidOut b d.arena d.ns.datasize)
    (c : IsConsistent b d.arena d.ns.mem) (lane_in : lane < b.nfree)
    (i_in : i < d.arena.external_nlba) (full : length buf ≡ b.lbasize)
    (clear : bit_and d.arena.flags flag_error ≡ 0)
    (quiet : being_read (take b.nlane d.arena.rtt) (new_entry d.arena lane) ≡ false) where
  abbrev a : Arena
  a = d.arena

  abbrev d1 : Dev
  d1 = stored d (data_at a lane) buf

  abbrev updated : Dev
  updated =
      with_flog
        (stored (stored d1 (slot_at a lane) (first_half a d.ns.mem i)) (slot_at a lane + 8)
          (second_half a lane))
        lane (new_runtime a d.ns.mem lane i)

  free_lba : entry_lba (new_entry a lane) ≡ free_of a lane
  free_lba = entry_lba-mod (new_entry a lane) ∙ omega arith

  data_write : dev_write buf (data_block_off a (free_of a lane)) d ≡ (ok tt, d1)
  data_write = rw (data_block_off_lba g (free_of a lane) (c.free_in lane lane_in)) (
      dev_write_lem d buf (data_at a lane)
        (omega (arith, regions b a d.ns.datasize g d.ns.mem lane i buf c lane_in i_in full))
        (omega arith))

  map_locked : map_lock i d1 ≡ (ok (old_entry a d.ns.mem i), d1)
  unfolding mem1
  map_locked =
      map_lock_lem d1 g i i_in
      ∙ ap (λ w. (ok (locked i w), d1))
          (map1 b a d.ns.datasize g d.ns.mem lane i buf c lane_in i_in full)

  update : flog_update lane i (old_entry a d.ns.mem i) (new_entry a lane) d1 ≡ (ok tt, updated)
  update =
      flog_update_lem d1 g lane i (old_entry a d.ns.mem i) (new_entry a lane)
        (omega (arith, regions b a d.ns.datasize g d.ns.mem lane i buf c lane_in i_in full))

  write_block_lem : write_block b lane i buf d ≡ (ok tt, wrote d lane i buf)
  unfolding write_block
  write_block_lem = ground (
    arith,
    clear,
    quiet,
    free_entry_lem a lane,
    free_lba,
    data_write,
    map_locked,
    update,
    map_unlock_lem updated (IsLaidOut-set lane (new_runtime a d.ns.mem lane i) g) (new_entry a lane)
        i i_in,
  )

  -- A write of one block by an idle lane succeeds. Then the block reads back as what was written,
  -- every other block reads as before, and the arena is consistent again.
  pub write_block-contents :
      (write_block b lane i buf d ≡ (ok tt, wrote d lane i buf))
      × (contents b (wrote d lane i buf).arena (wrote d lane i buf).ns.mem i ≡ ok buf)
      × ((j : ℕ)
          → j < d.arena.external_nlba
          → j ≢ i
          → contents b (wrote d lane i buf).arena (wrote d lane i buf).ns.mem j
            ≡ contents b d.arena d.ns.mem j)
      × IsConsistent b (wrote d lane i buf).arena (wrote d lane i buf).ns.mem
  unfolding mem1 mem2 mem3 mem4 contents
  write_block-contents = (
    write_block_lem,
    contents4 b a d.ns.datasize g d.ns.mem lane i buf c lane_in i_in full,
    λ j h ne.
        contents_other b a d.ns.datasize g d.ns.mem (mem4 a d.ns.mem lane i buf) lane i c lane_in
          i_in (touched4 b a d.ns.datasize g d.ns.mem lane i buf c lane_in i_in full) j h ne,
    committed-IsConsistent b a d.ns.datasize g d.ns.mem (mem4 a d.ns.mem lane i buf) lane i c
        lane_in i_in (touched4 b a d.ns.datasize g d.ns.mem lane i buf c lane_in i_in full)
        (slot4 b a d.ns.datasize g d.ns.mem lane i buf c lane_in i_in full)
        (map4 b a d.ns.datasize g d.ns.mem lane i buf c lane_in i_in full),
  )
