-- ===== src/Btt/Recover.antt =====
-- Loading the flog of an arena: each pair gives back its run-time state, and a write whose flog
-- entry counts but whose map update is missing is completed.
use nvml.Base.{
  ℕ, ◌+◌, ◌*◌, ◌%◌, ◌^◌, ◌<◌, ◌≤◌, ◌≡◌, ◌≢◌, inl, inr, ap, ◌∙◌, List, some, ◌==◌, Bool-cases, arith,
}
use nvml.Base.Memory.{load, get32, get32-lt, word, word-load, le32}
use nvml.Base.Outcome.{ok}
use nvml.Btt.{Btt, Dev, Flog, FlogRuntime}
use nvml.Btt.Entry.{is_initial_lem, normal-add}
use nvml.Btt.Device.{dev_read, map_entry_off}
use nvml.Btt.FreeList.{
  next_off, flog_of, current_flog, complete_flog, use_pair, read_flog_pair, invalid_lba,
}
use nvml.Btt.Seq.{current_flog_first, current_flog_second}
use nvml.Btt.View.{IsLaidOut, At, PairAt, map_word, block_of, cur_off}
use nvml.Btt.Access.{stored, dev_read_lem, dev_write_lem, map_entry_off_lem}
use nvml.Btt.Steps.{locked}

module _ {b : Btt} (d : Dev) (g : IsLaidOut b d.arena d.ns.datasize) where
  map_read :
      (i : ℕ)
      → i < d.arena.external_nlba
      → dev_read 4 (map_entry_off d.arena i) d ≡ (ok (load d.ns.mem (d.arena.mapoff + 4 * i) 4), d)
  map_read i h =
      rw (map_entry_off_lem g i h)
        (dev_read_lem d 4 (d.arena.mapoff + 4 * i) (omega arith) (omega arith))

  map_found :
      (i : ℕ) → word (load d.ns.mem (d.arena.mapoff + 4 * i) 4) 0 ≡ map_word d.arena d.ns.mem i
  map_found i =
      word-load d.ns.mem (d.arena.mapoff + 4 * i) 4 0 (omega arith)
      ∙ ap (get32 d.ns.mem) (omega arith)

  -- An operation that is complete is left alone.
  pub complete_flog_done :
      (fl : Flog)
      → fl.lba < d.arena.external_nlba
      → block_of d.arena d.ns.mem fl.lba ≢ fl.old_map % 2 ^ 30
      → complete_flog fl d ≡ (ok tt, d)
  unfolding complete_flog
  complete_flog_done fl h ne = ground (
    arith,
    map_read fl.lba h,
    map_found fl.lba,
    is_initial_lem w lt,
    normal-add fl.lba (omega arith),
    g,
  )
    where
      w : ℕ
      w = map_word d.arena d.ns.mem fl.lba

      lt : w < 2 ^ 32
      lt = get32-lt d.ns.mem (d.arena.mapoff + 4 * fl.lba)

  -- One whose map update is missing is completed.
  pub complete_flog_pending :
      (fl : Flog)
      → fl.lba < d.arena.external_nlba
      → fl.old_map ≡ locked fl.lba (map_word d.arena d.ns.mem fl.lba)
      → fl.new_map ≢ fl.old_map
      → complete_flog fl d ≡ (ok tt, stored d (d.arena.mapoff + 4 * fl.lba) (le32 fl.new_map))
  unfolding complete_flog
  complete_flog_pending fl h e ne = ground (
    arith,
    map_read fl.lba h,
    map_found fl.lba,
    is_initial_lem w lt,
    normal-add fl.lba (omega arith),
    map_entry_off_lem g fl.lba h,
    dev_write_lem d (le32 fl.new_map) (d.arena.mapoff + 4 * fl.lba) (omega arith) (omega arith),
  )
    where
      w : ℕ
      w = map_word d.arena d.ns.mem fl.lba

      lt : w < 2 ^ 32
      lt = get32-lt d.ns.mem (d.arena.mapoff + 4 * fl.lba)

  -- The two entries as they are read.
  flog_read :
      (off i o : ℕ) (fl : Flog)
      → i + 16 ≤ 32
      → o ≡ off + i
      → At d.ns.mem o fl
      → flog_of (load d.ns.mem off 32) i ≡ fl
  flog_read off i o fl h e at = ground (
    arith,
    at,
    word-load d.ns.mem off 32 i,
    word-load d.ns.mem off 32 (i + 4),
    word-load d.ns.mem off 32 (i + 8),
    word-load d.ns.mem off 32 (i + 12),
  )

  abbrev pair_bytes : ℕ → List ℕ
  pair_bytes off = load d.ns.mem off 32

  -- The choice between the entries finds the run-time state.
  pair_current :
      (ext off : ℕ) (rt : FlogRuntime)
      → PairAt ext d.ns.mem off rt
      → current_flog (flog_of (pair_bytes off) 0) (flog_of (pair_bytes off) 16)
        ≡ some (rt.flog, rt.next)
  pair_current ext off rt p = elim (Bool-cases (rt.next == 0)) [
    | inl e ↦
        let second : flog_of (pair_bytes off) 16 ≡ rt.flog =
          flog_read off 16 (cur_off rt) rt.flog (omega arith) (ground (arith, p)) p.current in
        let seq : word (pair_bytes off) 12 ≡ get32 d.ns.mem (next_off rt + 12) =
          word-load d.ns.mem off 32 12 (omega arith) ∙ ap (get32 d.ns.mem) (ground (arith, p)) in
        rw second (
          current_flog_second (flog_of (pair_bytes off) 0) rt.flog p.seq_pos p.seq_le
            (rw seq p.stale)
          ∙ ground (arith))
    | inr e ↦
        let first : flog_of (pair_bytes off) 0 ≡ rt.flog =
          flog_read off 0 (cur_off rt) rt.flog (omega arith) (ground (arith, p)) p.current in
        let seq : word (pair_bytes off) 28 ≡ get32 d.ns.mem (next_off rt + 12) =
          word-load d.ns.mem off 32 28 (omega arith) ∙ ap (get32 d.ns.mem) (ground (arith, p)) in
        rw first (
          current_flog_first rt.flog (flog_of (pair_bytes off) 16) p.seq_pos p.seq_le
            (rw seq p.stale)
          ∙ ground (arith, p))
  ]

  pair_lbas :
      (ext off : ℕ) (rt : FlogRuntime)
      → PairAt ext d.ns.mem off rt
      → (word (pair_bytes off) 0 < ext) × (word (pair_bytes off) 16 < ext)
  pair_lbas ext off rt p = elim (Bool-cases (rt.next == 0)) [
    | inl e ↦ (
      rw (word_at 0 (next_off rt) (omega arith) (ground (arith, p))) p.stale_valid,
      rw (word_at 16 (cur_off rt) (omega arith) (ground (arith, p)), p.current.lba_at) p.lba_valid,
    )
    | inr e ↦ (
      rw (word_at 0 (cur_off rt) (omega arith) (ground (arith, p)), p.current.lba_at) p.lba_valid,
      rw (word_at 16 (next_off rt) (omega arith) (ground (arith, p))) p.stale_valid,
    )
  ]
    where
      word_at : (i o : ℕ) → i + 4 ≤ 32 → off + i ≡ o → word (pair_bytes off) i ≡ get32 d.ns.mem o
      word_at i o h e = word-load d.ns.mem off 32 i h ∙ ap (get32 d.ns.mem) e

  pair_runtime :
      (ext off : ℕ) (rt : FlogRuntime)
      → PairAt ext d.ns.mem off rt
      → record { flog = rt.flog; entry0 = off; entry1 = off + 16; next = rt.next } ≡ rt
  pair_runtime ext off rt p = ground (arith, p)

  -- A pair is loaded with its run-time state, once its operation is complete.
  pub read_flog_pair_lem :
      (lane off : ℕ) (rt : FlogRuntime) (e : Dev)
      → PairAt d.arena.external_nlba d.ns.mem off rt
      → lane < b.nfree
      → 0 < off
      → off + 32 ≤ d.ns.datasize
      → complete_flog rt.flog d ≡ (ok tt, e)
      → read_flog_pair b lane off d ≡ (ok rt, e)
  unfolding read_flog_pair use_pair invalid_lba
  read_flog_pair_lem lane off rt e p lane_in pos fits done = ground (
    arith,
    g,
    dev_read_lem d 32 off fits,
    pair_lbas d.arena.external_nlba off rt p,
    pair_current d.arena.external_nlba off rt p,
    pair_runtime d.arena.external_nlba off rt p,
  )
