-- ===== src/Btt/Check.antt =====
-- check_arena and btt_check of src/libpmemblk/btt.c. A result of `true` is consistent. The bitmap
-- has one bit for each block; a flog entry past its end, where C would look outside of it, counts
-- as not seen and is not recorded.
pub mod Bitmap
pub mod Division
pub mod First
use nvml.Base.{
  ℕ, zero, suc, ◌+◌, ◌-◌, ◌*◌, List, [], ◌∷◌, Bool, true, false, not, ◌==◌, ◌&&◌, leb, get_or, set,
  replicate, if◌then◌else◌,
}
use nvml.Base.Memory.{word, load}
use nvml.Base.Outcome.{Run, pure, fail, ok, err, hang, einval, ◌>>=◌}
use nvml.Namespace.{nsmap, u64}
use nvml.Btt.{Btt, Arena, Dev, FlogRuntime, flog_at, map_entry_size}
use nvml.Btt.Entry.{map_entry_is_initial, entry_lba}
use nvml.Btt.Table.{Table, in_arena}

-- The blocks seen so far, and whether no block was seen twice.
pub record Seen : Type 0 where
  pub bitmap : List Bool
  pub consistent : Bool

abbrev pub see : ℕ → Seen → Seen
see entry s =
    if get_or s.bitmap entry false
    then record s { consistent = false }
    else record s { bitmap = set s.bitmap entry true }

-- (*bttp->ns_cbp->nsmap)
unfoldable pub dev_map : ℕ → ℕ → Run Dev ℕ
dev_map len off d = let (r, ns') = nsmap len off d.ns in (r, record d { ns = ns' })

-- The window of the map that is mapped: its address, the index in it and the bytes left.
pub record Window : Type 0 where
  pub mapp : ℕ
  pub next_index : ℕ
  pub remaining : ℕ

-- Asks for a window of all the map that is left once one is used up.
unfoldable pub next_window : ℕ → ℕ → Window → Run Dev Window
next_window left map_entry_off w d =
    if w.remaining == 0
    then (do
      mlen ← dev_map (left * map_entry_size) map_entry_off
      pure (record { mapp = map_entry_off; next_index = 0; remaining = mlen }))
        d
    else pure w d

-- The block that the map entry of LBA `i` names.
unfoldable pub entry_block : ℕ → ℕ → ℕ
entry_block i entry = if map_entry_is_initial entry then i else entry_lba entry

-- The loop over the map, from LBA `i` with `left` entries to go.
unfoldable pub check_map : ℕ → ℕ → ℕ → Window → Seen → Run Dev Seen
check_map zero i map_entry_off w s d = pure s d
check_map (suc left) i map_entry_off w s d =
    (do
      w' ← next_window (suc left) map_entry_off w
      λ e.
          let entry =
            entry_block i (word (load e.ns.mem (w'.mapp + map_entry_size * w'.next_index) 4) 0) in
          let rest =
            check_map left (i + 1) (u64 (map_entry_off + map_entry_size))
              (record w' {
                next_index = w'.next_index + 1;
                remaining = w'.remaining - map_entry_size;
              })
              (see entry s) in
          if leb e.arena.internal_nlba entry then fail einval e else rest e)
      d

-- The loop over the free blocks.
unfoldable pub check_flogs : Arena → ℕ → ℕ → Seen → Seen
check_flogs a zero i s = s
check_flogs a (suc left) i s =
    check_flogs a left (i + 1) (see (entry_lba (flog_at a i).flog.old_map) s)

-- Every block was seen.
unfoldable pub all_seen : List Bool → Bool
all_seen [] = true
all_seen (bit ∷ bits) = bit && all_seen bits

unfoldable pub check_arena : Btt → Run Dev Bool
check_arena b d =
    (do
      s ←
          check_map d.arena.external_nlba 0 d.arena.mapoff
            (record { mapp = 0; next_index = 0; remaining = 0 })
            (record { bitmap = replicate d.arena.internal_nlba false; consistent = true })
      let s' = check_flogs d.arena b.nfree 0 s
      pure (s'.consistent && all_seen s'.bitmap))
      d

-- What bttp->arenas points to. There is none only where narena is 0.
unfoldable pub check_first : Btt → List Arena → Run Table Bool
check_first b [] t = (hang, t)
check_first b (a ∷ arenas) t = in_arena 0 a (check_arena b) t

-- The loop of btt_check, with the rounds left. Its pointer stays at the first arena.
unfoldable pub check_arenas : ℕ → Bool → Run Table Bool
check_arenas zero consistent t = pure consistent t
check_arenas (suc left) consistent t =
    (do good ← check_first t.btt t.btt.arenas; check_arenas left (consistent && good)) t

unfoldable pub btt_check : Run Table Bool
btt_check t = if not t.btt.laidout then pure true t else check_arenas t.btt.narena true t
