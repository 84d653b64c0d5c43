-- ===== src/Btt/Read.antt =====
-- btt_read in a laid out arena.
use nvml.Base.{
  ℕ, ◌+◌, ◌*◌, ◌/◌, ◌%◌, ◌^◌, ◌<◌, ◌≡◌, refl, ◌∙◌, ap, suc, some, get_elem?, set, set-set_restore,
  arith,
}
use nvml.Base.Memory.{load, word, get32, get32-lt, word-load}
use nvml.Base.Outcome.{ok}
use nvml.Btt.{Btt, Dev}
use nvml.Btt.Entry.{is_error_lem, is_zero_or_initial_lem, error_entry}
use nvml.Btt.Device.{dev_read, map_entry_off}
use nvml.Btt.Block.{read_block, read_loop, data_block_off}
use nvml.Btt.View.{IsLaidOut, IsConsistent, map_word, contents, contents_by, block_start}
use nvml.Btt.Access.{dev_read_lem, map_entry_off_lem, data_block_off_entry, block_end}

module _ (b : Btt) (d : Dev) (lane i : ℕ) (g : IsLaidOut b d.arena d.ns.datasize)
    (c : IsConsistent b d.arena d.ns.mem) (h : i < d.arena.external_nlba)
    (idle : get_elem? d.arena.rtt lane ≡ some error_entry) where
  -- The device while the lane reads.
  abbrev reading : ℕ → Dev
  reading w = record d { arena = record (d.arena) { rtt = set d.arena.rtt lane w } }

  map_read :
      (w : ℕ)
      → dev_read 4 (map_entry_off d.arena i) (reading w)
        ≡ (ok (load d.ns.mem (d.arena.mapoff + 4 * i) 4), reading w)
  map_read w =
      rw (map_entry_off_lem g i h)
        (dev_read_lem (reading w) 4 (d.arena.mapoff + 4 * i) (omega arith) (omega arith))

  map_found : word (load d.ns.mem (d.arena.mapoff + 4 * i) 4) 0 ≡ map_word d.arena d.ns.mem i
  map_found =
      word-load d.ns.mem (d.arena.mapoff + 4 * i) 4 0 (omega arith)
      ∙ ap (get32 d.ns.mem) (omega arith)

  data_read :
      (w n : ℕ)
      → n < d.arena.internal_nlba
      → w ≡ n + 3 * 2 ^ 30
      → dev_read b.lbasize (data_block_off d.arena w) (reading w)
        ≡ (ok (load d.ns.mem (block_start d.arena n) b.lbasize), reading w)
  data_read w n lt e =
      rw (e, data_block_off_entry g n lt)
        (dev_read_lem (reading (n + 3 * 2 ^ 30)) b.lbasize (block_start d.arena n)
          (omega (arith, block_end g n lt)) (omega arith))

  restored : (w : ℕ) → set (set d.arena.rtt lane w) lane error_entry ≡ d.arena.rtt
  restored w = set-set_restore d.arena.rtt lane error_entry w idle

  normal_block :
      (w : ℕ)
      → w ≡ map_word d.arena d.ns.mem i
      → w / 2 ^ 30 ≡ 3
      → w % 2 ^ 30 < d.arena.internal_nlba
  normal_block w e n = ground (arith, c.mapped_in i)

  read_loop-contents :
      (fuel w : ℕ)
      → w ≡ map_word d.arena d.ns.mem i
      → read_loop b lane i (suc fuel) w d ≡ (contents_by b d.arena d.ns.mem w, d)
  unfolding read_loop
  read_loop-contents fuel w e = ground (
    arith,
    is_error_lem w lt,
    is_zero_or_initial_lem w lt,
    map_read w,
    map_found,
    data_read w (w % 2 ^ 30),
    normal_block w e,
    restored w,
  )
    where
      lt : w < 2 ^ 32
      lt = rw e (get32-lt d.ns.mem (d.arena.mapoff + 4 * i))

  first_read :
      dev_read 4 (map_entry_off d.arena i) d ≡ (ok (load d.ns.mem (d.arena.mapoff + 4 * i) 4), d)
  first_read =
      rw (map_entry_off_lem g i h)
        (dev_read_lem d 4 (d.arena.mapoff + 4 * i) (omega arith) (omega arith))

  -- Reading a pre-map LBA gives its contents, by an idle lane whose slot of the read tracking
  -- table is clear, and leaves the namespace and the arena as they were.
  pub read_block-contents : read_block b lane i d ≡ (contents b d.arena d.ns.mem i, d)
  unfolding read_block contents
  read_block-contents =
      rw (first_read, map_found) (read_loop-contents 1 (map_word d.arena d.ns.mem i) refl)
