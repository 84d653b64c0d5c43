-- ===== src/Btt/Steps.antt =====
-- The steps of btt_write in a laid out arena: each succeeds, and what it leaves.
use nvml.Base.{ℕ, ◌+◌, ◌*◌, ◌/◌, ◌^◌, ◌≤◌, ◌<◌, ◌≡◌, ◌∙◌, ap, ◌++◌, ◌==◌, if◌then◌else◌, set, arith}
use nvml.Base.Memory.{load, word, get32, get32-lt, word-load, le32}
use nvml.Base.Outcome.{ok}
use nvml.Btt.{Btt, Dev, Arena, FlogRuntime, flog_at}
use nvml.Btt.Entry.{entry_lba-mod, normal-add, is_initial_lem}
use nvml.Btt.FreeList.{flog_update, next_off, advanced, nseq}
use nvml.Btt.Map.{map_lock, map_unlock}
use nvml.Btt.Block.{free_entry}
use nvml.Btt.View.{IsLaidOut, map_word, free_of}
use nvml.Btt.Access.{stored, dev_read_lem, dev_write_lem, map_entry_off_lem}

-- The entry that map_lock hands out.
abbrev pub locked : ℕ → ℕ → ℕ
locked i w = if w / 2 ^ 30 == 0 then i + 3 * 2 ^ 30 else w

abbrev pub with_flog : Dev → ℕ → FlogRuntime → Dev
with_flog d lane rt = record d { arena = record (d.arena) { flogs = set d.arena.flogs lane rt } }

-- The layout does not depend on the run-time state of the flog.
pub IsLaidOut-set :
    {b : Btt} {a : Arena} {size : ℕ} (lane : ℕ) (rt : FlogRuntime)
    → IsLaidOut b a size
    → IsLaidOut b (record a { flogs = set a.flogs lane rt }) size
IsLaidOut-set lane rt g = omega arith

pub free_entry_lem : (a : Arena) (lane : ℕ) → free_entry a lane ≡ free_of a lane + 3 * 2 ^ 30
free_entry_lem a lane =
    rw (entry_lba-mod (flog_at a lane).flog.old_map) (normal-add (free_of a lane) (omega arith))

module _ {b : Btt} (d : Dev) (g : IsLaidOut b d.arena d.ns.datasize) where
  pub map_lock_lem :
      (i : ℕ)
      → i < d.arena.external_nlba
      → map_lock i d ≡ (ok (locked i (map_word d.arena d.ns.mem i)), d)
  unfolding map_lock
  map_lock_lem i h =
      rw
        (
          map_entry_off_lem g i h,
          dev_read_lem d 4 (d.arena.mapoff + 4 * i) (omega arith) (omega arith),
          found,
        )
        (ground (arith, is_initial_lem w lt, normal-add i (omega arith)))
    where
      w : ℕ
      w = map_word d.arena d.ns.mem i

      lt : w < 2 ^ 32
      lt = get32-lt d.ns.mem (d.arena.mapoff + 4 * i)

      found : word (load d.ns.mem (d.arena.mapoff + 4 * i) 4) 0 ≡ w
      found =
          word-load d.ns.mem (d.arena.mapoff + 4 * i) 4 0 (omega arith)
          ∙ ap (get32 d.ns.mem) (omega arith)

  pub map_unlock_lem :
      (entry i : ℕ)
      → i < d.arena.external_nlba
      → map_unlock entry i d ≡ (ok tt, stored d (d.arena.mapoff + 4 * i) (le32 entry))
  unfolding map_unlock
  map_unlock_lem entry i h =
      rw (map_entry_off_lem g i h)
        (dev_write_lem d (le32 entry) (d.arena.mapoff + 4 * i) (omega arith) (omega arith))

  pub flog_update_lem :
      (lane lba old new : ℕ)
      → next_off (flog_at d.arena lane) + 16 ≤ d.ns.datasize
      → flog_update lane lba old new d ≡ (
        ok tt,
        with_flog
            (stored
              (stored d (next_off (flog_at d.arena lane)) (le32 lba ++ le32 old))
              (next_off (flog_at d.arena lane) + 8)
              (le32 new ++ le32 (nseq (flog_at d.arena lane).flog.seq)))
            lane
            (advanced (flog_at d.arena lane) lba old new),
      )
  unfolding flog_update
  flog_update_lem lane lba old new h = rw (
    dev_write_lem d (le32 lba ++ le32 old) off (omega arith) (omega arith),
    dev_write_lem (stored d off (le32 lba ++ le32 old))
        (le32 new ++ le32 (nseq (flog_at d.arena lane).flog.seq)) (off + 8) (omega arith)
        (omega arith),
  )
    where
      off : ℕ
      off = next_off (flog_at d.arena lane)
