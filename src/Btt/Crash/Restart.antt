-- ===== src/Btt/Crash/Restart.antt =====
-- read_flogs on what a power failure left.
use nvml.Base.{ℕ, ◌+◌, ◌*◌, ◌%◌, ◌^◌, ◌<◌, ◌≡◌, ◌≢◌, List, [], length, get_or, arith}
use nvml.Base.Memory.{Mem, le32, store}
use nvml.Base.Outcome.{ok}
use nvml.Btt.{Btt, Dev, Flog, FlogRuntime, zero_runtime}
use nvml.Btt.FreeList.{read_flogs, read_pairs, complete_flog}
use nvml.Btt.View.{IsLaidOut, IsConsistent, PairAt, map_word, block_of}
use nvml.Btt.Access.{stored}
use nvml.Btt.Steps.{locked}
use nvml.Btt.Recover.{complete_flog_done, complete_flog_pending}
use nvml.Btt.Reload.{read_pairs_done, read_pairs_pending}

-- The device when the namespace is opened again: the geometry of the arena comes from its info
-- block, and its flogs are not loaded yet.
abbrev pub restart : Dev → Mem → Dev
restart d m' = record d {
  ns = record (d.ns) { mem = m'; journal = [] };
  arena = record (d.arena) { flogs = [] };
}

abbrev pub with_flogs : Dev → List FlogRuntime → Dev
with_flogs d rts = record d { arena = record (d.arena) { flogs = rts } }

pub read_flogs_lem :
    (b : Btt) (rl : ℕ) (d e : Dev) (rts : List FlogRuntime)
    → length rts ≡ b.nfree
    → read_pairs b rl d.arena.flogoff (length rts) d ≡ (ok rts, e)
    → read_flogs b rl d ≡ (ok tt, with_flogs e rts)
unfolding read_flogs
read_flogs_lem b rl d e rts len h =
    let h' : read_pairs b rl d.arena.flogoff b.nfree d ≡ (ok rts, e) = rw len at h in
    ground (arith, h')

module _ (b : Btt) (d : Dev) (rl : ℕ) (rl_in : rl < b.nfree)
    (g : IsLaidOut b d.arena d.ns.datasize) where
  laid_out : (m' : Mem) → IsLaidOut b (restart d m').arena d.ns.datasize
  laid_out m' = omega arith

  -- On a consistent arena nothing is left to complete.
  pub reload_consistent :
      (m' : Mem) (rts : List FlogRuntime)
      → IsConsistent b (record (d.arena) { flogs = rts }) m'
      → read_flogs b rl (restart d m') ≡ (ok tt, with_flogs (restart d m') rts)
  reload_consistent m' rts c = read_flogs_lem b rl (restart d m') (restart d m') rts c.lanes (
      read_pairs_done rl rl_in (restart d m') d.arena.flogoff rts (laid_out m') g.flog_pos
        (omega arith) (λ k h. c.pairs k (omega arith)) settled)
    where
      settled :
          (k : ℕ)
          → k < length rts
          → complete_flog (get_or rts k zero_runtime).flog (restart d m') ≡ (ok tt, restart d m')
      settled k h =
          let k_in : k < b.nfree = omega arith in
          let p = c.pairs k k_in in
          complete_flog_done (restart d m') (laid_out m') (get_or rts k zero_runtime).flog
            p.lba_valid (c.mapped_not_free (get_or rts k zero_runtime).flog.lba k p.lba_valid k_in)

  -- Where one lane's map update is missing, it is made up for.
  pub reload_pending :
      (m' : Mem) (rts : List FlogRuntime) (lane : ℕ) (fl : Flog)
      → let at = d.arena.mapoff + 4 * fl.lba in
        lane < b.nfree
        → (get_or rts lane zero_runtime).flog ≡ fl
        → IsConsistent b (record (d.arena) { flogs = rts }) (store m' at (le32 fl.new_map))
        → ((k : ℕ)
            → k < b.nfree
            → PairAt d.arena.external_nlba m'
                (d.arena.flogoff + 64 * k)
                (get_or rts k zero_runtime))
        → ((j k : ℕ)
            → j < d.arena.external_nlba
            → k < b.nfree
            → k ≢ lane
            → block_of d.arena m' j ≢ (get_or rts k zero_runtime).flog.old_map % 2 ^ 30)
        → fl.old_map ≡ locked fl.lba (map_word d.arena m' fl.lba)
        → fl.new_map ≢ fl.old_map
        → read_flogs b rl (restart d m')
          ≡ (ok tt, with_flogs (stored (restart d m') at (le32 fl.new_map)) rts)
  reload_pending m' rts lane fl lane_in here c pairs apart old ne =
      read_flogs_lem b rl (restart d m') after rts c.lanes (
        read_pairs_pending rl rl_in (restart d m') place (le32 fl.new_map) d.arena.flogoff rts lane
          (laid_out m') g.flog_pos (omega arith) (omega arith) (λ k h. pairs k (omega arith))
          (λ k h. c.pairs k (omega arith))
          (rw here (complete_flog_pending (restart d m') (laid_out m') fl lba_in old ne)) before
          settled)
    where
      lba_in : fl.lba < d.arena.external_nlba
      lba_in = rw here at (pairs lane lane_in).lba_valid

      place : ℕ
      place = d.arena.mapoff + 4 * fl.lba

      after : Dev
      after = stored (restart d m') place (le32 fl.new_map)

      before :
          (k : ℕ)
          → k < length rts
          → k ≢ lane
          → complete_flog (get_or rts k zero_runtime).flog (restart d m') ≡ (ok tt, restart d m')
      before k h ne =
          let k_in : k < b.nfree = omega arith in
          let p = pairs k k_in in
          complete_flog_done (restart d m') (laid_out m') (get_or rts k zero_runtime).flog
            p.lba_valid (apart (get_or rts k zero_runtime).flog.lba k p.lba_valid k_in ne)

      settled :
          (k : ℕ)
          → k < length rts
          → k ≢ lane
          → complete_flog (get_or rts k zero_runtime).flog after ≡ (ok tt, after)
      settled k h ne =
          let k_in : k < b.nfree = omega arith in
          let p = c.pairs k k_in in
          complete_flog_done after (laid_out m') (get_or rts k zero_runtime).flog p.lba_valid
            (c.mapped_not_free (get_or rts k zero_runtime).flog.lba k p.lba_valid k_in)
