-- ===== src/Btt/Frame.antt =====
-- What an arena stands for depends on the bytes of its own data area, map and flog only.
use nvml.Base.{ℕ, ◌+◌, ◌-◌, ◌*◌, ◌/◌, ◌%◌, ◌^◌, ◌≤◌, ◌<◌, ◌≡◌, refl, sym, ◌∙◌, arith}
use nvml.Base.Memory.{Mem, load, get32, Agree, load-Agree, get32-Agree}
use nvml.Btt.{Btt, Arena, FlogRuntime, flog_at}
use nvml.Btt.FreeList.{next_off}
use nvml.Btt.View.{
  IsLaidOut, IsConsistent, PairAt, map_word, block_of, block_start, contents, contents_by, cur_off,
}
use nvml.Btt.Access.{block_end}

-- The bytes from the data area to the end of the flog.
abbrev pub region_size : Btt → Arena → ℕ
region_size b a = a.flogoff + 64 * b.nfree - a.dataoff

module _ (b : Btt) (a : Arena) (size : ℕ) (g : IsLaidOut b a size) (m m' : Mem)
    (c : IsConsistent b a m) (same : Agree a.dataoff (region_size b a) m' m) where
  map_framed : (i : ℕ) → i < a.external_nlba → map_word a m' i ≡ map_word a m i
  map_framed i h =
      get32-Agree m' m (a.mapoff + 4 * i) (λ x lo hi. same x (omega arith) (omega arith))

  flog_framed : (o : ℕ) → a.flogoff ≤ o → o + 4 ≤ a.flogoff + 64 * b.nfree → get32 m' o ≡ get32 m o
  flog_framed o lo hi = get32-Agree m' m o (λ x xl xh. same x (omega arith) (omega arith))

  pub contents_framed : (i : ℕ) → i < a.external_nlba → contents b a m' i ≡ contents b a m i
  unfolding contents
  contents_framed i h = rw (map_framed i h) (by_word (map_word a m i) refl)
    where
      by_word : (w : ℕ) → w ≡ map_word a m i → contents_by b a m' w ≡ contents_by b a m w
      by_word w e = ground (arith, loaded)
        where
          block_in : w / 2 ^ 30 ≡ 3 → w % 2 ^ 30 < a.internal_nlba
          block_in n = ground (arith, c.mapped_in i)

          loaded :
              w / 2 ^ 30 ≡ 3
              → load m' (block_start a (w % 2 ^ 30)) b.lbasize
                ≡ load m (block_start a (w % 2 ^ 30)) b.lbasize
          loaded n = load-Agree m' m (block_start a (w % 2 ^ 30)) b.lbasize (λ x lo hi.
              same x (omega arith) (omega (arith, block_end g (w % 2 ^ 30) (block_in n))))

  pair_framed : (k : ℕ) → k < b.nfree → PairAt a.external_nlba m' (a.flogoff + 64 * k) (flog_at a k)
  pair_framed k h =
      let p = c.pairs k h in
      record {
        first = p.first;
        second = p.second;
        next_bit = p.next_bit;
        current = record {
          lba_at = kept (cur_off rt) (ground (arith, p)) (ground (arith, p)) ∙ p.current.lba_at;
          old_at = kept (cur_off rt + 4) (ground (arith, p)) (ground (arith, p)) ∙ p.current.old_at;
          new_at = kept (cur_off rt + 8) (ground (arith, p)) (ground (arith, p)) ∙ p.current.new_at;
          seq_at =
              kept (cur_off rt + 12) (ground (arith, p)) (ground (arith, p)) ∙ p.current.seq_at;
        };
        seq_pos = p.seq_pos;
        seq_le = p.seq_le;
        stale = rw (kept (next_off rt + 12) (ground (arith, p)) (ground (arith, p))) p.stale;
        lba_valid = p.lba_valid;
        stale_valid = rw (kept (next_off rt) (ground (arith, p)) (ground (arith, p))) p.stale_valid;
      }
    where
      rt : FlogRuntime
      rt = flog_at a k

      kept :
          (o : ℕ)
          → a.flogoff + 64 * k ≤ o
          → o + 4 ≤ a.flogoff + 64 * k + 32
          → get32 m' o ≡ get32 m o
      kept o lo hi = flog_framed o (omega arith) (omega arith)

  pub frame-IsConsistent : IsConsistent b a m'
  frame-IsConsistent = record {
    lanes = c.lanes;
    pairs = pair_framed;
    mapped_in = λ i h. rw (block_framed i h) (c.mapped_in i h);
    free_in = c.free_in;
    mapped_apart =
        λ i j h l e. c.mapped_apart i j h l (sym (block_framed i h) ∙ e ∙ block_framed j l);
    free_apart = c.free_apart;
    mapped_not_free = λ i k h l e. c.mapped_not_free i k h l (sym (block_framed i h) ∙ e);
  }
    where
      block_framed : (i : ℕ) → i < a.external_nlba → block_of a m' i ≡ block_of a m i
      block_framed i h = rw (map_framed i h) refl
