-- ===== src/Btt/Touched.antt =====
-- A write of one block, finished or cut short, touches the lane's free block, the flog entry it is
-- about to replace and one map entry. What else the arena stands for stays as it was.
use nvml.Base.{ℕ, ◌+◌, ◌*◌, ◌/◌, ◌%◌, ◌^◌, ◌≤◌, ◌<◌, ◌≡◌, ◌≢◌, inl, inr, refl, ap, ◌∙◌, arith}
use nvml.Base.Memory.{Mem, load, get32, Outside, Agree, Apart, load-Agree, get32-Agree}
use nvml.Btt.{Btt, Arena, Flog, FlogRuntime, flog_at}
use nvml.Btt.FreeList.{next_off, advanced}
use nvml.Btt.Seq.{nseq_cycle}
use nvml.Btt.View.{
  IsLaidOut, IsConsistent, PairAt, At, map_word, free_of, block_start, contents, contents_by,
  cur_off,
}
use nvml.Btt.Access.{block_end}
use native.Mathlib.Nat.{mul-le-mul_right}
use native.Mathlib.Decide.{dec_lt}

abbrev pub Touched : Btt → Arena → (n s i : ℕ) → Mem → Mem → Type 0
Touched b a n s i m m' =
    (x : ℕ)
    → Outside (block_start a n) b.lbasize x
    → Outside s 16 x
    → Outside (a.mapoff + 4 * i) 4 x
    → m' x ≡ m x

-- An update makes the entry that was current the next one to be replaced.
pub next_off-advanced :
    (rt : FlogRuntime) (lba old new : ℕ)
    → rt.next ≤ 1
    → next_off (advanced rt lba old new) ≡ cur_off rt
next_off-advanced rt lba old new h = ground arith

-- Two blocks have no byte in common.
pub blocks-Apart :
    {b : Btt} {a : Arena} {size : ℕ}
    → IsLaidOut b a size
    → (k n : ℕ) → k ≢ n
    → Apart (block_start a k) a.internal_lbasize (block_start a n) a.internal_lbasize
blocks-Apart {a = a} g k n ne = elim (dec_lt k n) [
  | yes p ↦ inl (omega (arith, mul-le-mul_right a.internal_lbasize p))
  | no p ↦ let q : n < k = omega arith in inr (omega (arith, mul-le-mul_right a.internal_lbasize q))
]

module _ (b : Btt) (a : Arena) (size : ℕ) (g : IsLaidOut b a size) (m m' : Mem) (lane i : ℕ)
    (c : IsConsistent b a m) (lane_in : lane < b.nfree) (i_in : i < a.external_nlba)
    (t : Touched b a (free_of a lane) (next_off (flog_at a lane)) i m m') where
  -- Where the entry that is replaced stands.
  pub slot_in :
      (a.flogoff + 64 * lane ≤ next_off (flog_at a lane))
      × (next_off (flog_at a lane) + 16 ≤ a.flogoff + 64 * lane + 32)
  slot_in = ground (arith, c.pairs lane lane_in)

  free_end : block_start a (free_of a lane) + a.internal_lbasize ≤ a.mapoff
  free_end = block_end g (free_of a lane) (c.free_in lane lane_in)

  block_same :
      (k : ℕ) → k < a.internal_nlba → k ≢ free_of a lane → Agree (block_start a k) b.lbasize m' m
  block_same k k_in ne x lo hi =
      t x (omega (arith, blocks-Apart g k (free_of a lane) ne))
        (omega (arith, block_end g k k_in, slot_in)) (omega (arith, block_end g k k_in))

  pub map_same : (j : ℕ) → j < a.external_nlba → j ≢ i → map_word a m' j ≡ map_word a m j
  map_same j j_in ne =
      get32-Agree m' m (a.mapoff + 4 * j)
        (λ x lo hi. t x (omega (arith, free_end)) (omega (arith, slot_in)) (omega arith))

  flog_same :
      (off : ℕ)
      → a.flogoff ≤ off
      → off + 16 ≤ size
      → Apart off 16 (next_off (flog_at a lane)) 16
      → (o : ℕ) → off ≤ o
      → o + 4 ≤ off + 16
      → get32 m' o ≡ get32 m o
  flog_same off lo hi ap o ol oh =
      get32-Agree m' m o (λ x xl xh. t x (omega (arith, free_end)) (omega arith) (omega arith))

  -- A pre-map LBA whose map entry is the old one reads as before.
  pub contents_kept :
      (j : ℕ)
      → j < a.external_nlba
      → map_word a m' j ≡ map_word a m j
      → contents b a m' j ≡ contents b a m j
  unfolding contents
  contents_kept j j_in e = rw e (by_word (map_word a m j) refl)
    where
      by_word : (w : ℕ) → w ≡ map_word a m j → contents_by b a m' w ≡ contents_by b a m w
      by_word w e = ground (arith, loaded, c.mapped_in j, c.mapped_not_free j lane)
        where
          loaded :
              w / 2 ^ 30 ≡ 3
              → load m' (block_start a (w % 2 ^ 30)) b.lbasize
                ≡ load m (block_start a (w % 2 ^ 30)) b.lbasize
          loaded n = load-Agree m' m (block_start a (w % 2 ^ 30)) b.lbasize (
              block_same (w % 2 ^ 30) (ground (arith, c.mapped_in j))
                (ground (arith, c.mapped_not_free j lane)))

  -- Every other pre-map LBA reads as before.
  pub contents_other : (j : ℕ) → j < a.external_nlba → j ≢ i → contents b a m' j ≡ contents b a m j
  contents_other j j_in ne = contents_kept j j_in (map_same j j_in ne)

  At-other :
      (off : ℕ) (fl : Flog)
      → a.flogoff ≤ off
      → off + 16 ≤ size
      → Apart off 16 (next_off (flog_at a lane)) 16
      → At m off fl
      → At m' off fl
  At-other off fl lo hi ap at = omega (
    arith,
    flog_same off lo hi ap off,
    flog_same off lo hi ap (off + 4),
    flog_same off lo hi ap (off + 8),
    flog_same off lo hi ap (off + 12),
  )

  pub pair_other :
      (k : ℕ)
      → k < b.nfree
      → k ≢ lane
      → PairAt a.external_nlba m' (a.flogoff + 64 * k) (flog_at a k)
  pair_other k k_in ne =
      let p = c.pairs k k_in in
      record {
        first = p.first;
        second = p.second;
        next_bit = p.next_bit;
        current =
            At-other (cur_off rt) rt.flog (ground (arith, p)) (ground (arith, p))
              (ground (arith, p, slot_in)) p.current;
        seq_pos = p.seq_pos;
        seq_le = p.seq_le;
        stale = rw (kept (next_off rt + 12) (omega arith) (omega arith)) p.stale;
        lba_valid = p.lba_valid;
        stale_valid = rw (kept (next_off rt) (omega arith) (omega arith)) p.stale_valid;
      }
    where
      rt : FlogRuntime
      rt = flog_at a k

      kept : (o : ℕ) → next_off rt ≤ o → o + 4 ≤ next_off rt + 16 → get32 m' o ≡ get32 m o
      kept =
          flog_same (next_off rt) (ground (arith, c.pairs k k_in)) (ground (arith, c.pairs k k_in))
            (ground (arith, c.pairs k k_in, slot_in))

  -- The lane's own pair, while the sequence number of the entry under replacement is the old one.
  pub pair_uncommitted :
      get32 m' (next_off (flog_at a lane)) < a.external_nlba
      → get32 m' (next_off (flog_at a lane) + 12) ≡ get32 m (next_off (flog_at a lane) + 12)
      → PairAt a.external_nlba m' (a.flogoff + 64 * lane) (flog_at a lane)
  pair_uncommitted valid seq =
      let p = c.pairs lane lane_in in
      record {
        first = p.first;
        second = p.second;
        next_bit = p.next_bit;
        current =
            At-other (cur_off rt) rt.flog (ground (arith, p)) (ground (arith, p))
              (ground (arith, p)) p.current;
        seq_pos = p.seq_pos;
        seq_le = p.seq_le;
        stale = rw seq p.stale;
        lba_valid = p.lba_valid;
        stale_valid = valid;
      }
    where
      rt : FlogRuntime
      rt = flog_at a lane

  -- The lane's own pair once the new entry is there as a whole.
  pub pair_committed :
      (old new : ℕ)
      → At m' (next_off (flog_at a lane)) (advanced (flog_at a lane) i old new).flog
      → PairAt a.external_nlba m' (a.flogoff + 64 * lane) (advanced (flog_at a lane) i old new)
  pair_committed old new at =
      let p = c.pairs lane lane_in in
      let cyc = nseq_cycle rt.flog.seq p.seq_pos p.seq_le in
      record {
        first = p.first;
        second = p.second;
        next_bit = omega arith;
        current = ground (arith, p, at);
        seq_pos = cyc.0;
        seq_le = cyc.1;
        stale =
            rw (next_off-advanced rt i old new p.next_bit, old_seq)
              (inr (p.seq_pos, p.seq_le, refl));
        lba_valid = i_in;
        stale_valid = rw (next_off-advanced rt i old new p.next_bit, old_lba) p.lba_valid;
      }
    where
      rt : FlogRuntime
      rt = flog_at a lane

      kept : (o : ℕ) → cur_off rt ≤ o → o + 4 ≤ cur_off rt + 16 → get32 m' o ≡ get32 m o
      kept =
          flog_same (cur_off rt) (ground (arith, c.pairs lane lane_in))
            (ground (arith, c.pairs lane lane_in)) (ground (arith, c.pairs lane lane_in))

      old_seq : get32 m' (cur_off rt + 12) ≡ rt.flog.seq
      old_seq =
          kept (cur_off rt + 12) (omega arith) (omega arith) ∙ (c.pairs lane lane_in).current.seq_at

      old_lba : get32 m' (cur_off rt) ≡ rt.flog.lba
      old_lba =
          kept (cur_off rt) (omega arith) (omega arith) ∙ (c.pairs lane lane_in).current.lba_at
