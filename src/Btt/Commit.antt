-- ===== src/Btt/Commit.antt =====
-- The map and the free lists stay consistent when a write is cut short before its flog entry
-- counts, and when it is complete: then the lane's free block and the mapped one have changed
-- places.
use nvml.Base.{
  ℕ, ◌+◌, ◌*◌, ◌^◌, ◌<◌, ◌≡◌, ◌≢◌, sym, ◌∙◌, set, ◌==◌, if◌then◌else◌, get_or-set_self,
  get_or-set_ne, length-set, arith,
}
use nvml.Base.Memory.{Mem, get32}
use nvml.Btt.{Btt, Arena, FlogRuntime, flog_at, zero_runtime}
use nvml.Btt.FreeList.{next_off, advanced}
use nvml.Btt.View.{IsLaidOut, IsConsistent, PairAt, At, map_word, block_of, free_of}
use nvml.Btt.Steps.{locked}
use nvml.Btt.Touched.{Touched, map_same, pair_other, pair_uncommitted, pair_committed}
use native.Mathlib.Decide.{ℕ_discrete}

-- The arena with another flog state in one lane.
abbrev pub arena_with : Arena → ℕ → FlogRuntime → Arena
arena_with a lane rt = record a { flogs = set a.flogs lane rt }

module _ (b : Btt) (a : Arena) (size : ℕ) (g : IsLaidOut b a size) (m m' : Mem) (lane i : ℕ)
    (c : IsConsistent b a m) (lane_in : lane < b.nfree) (i_in : i < a.external_nlba)
    (t : Touched b a (free_of a lane) (next_off (flog_at a lane)) i m m') where
  abbrev slot : ℕ
  slot = next_off (flog_at a lane)

  pub block_kept : (j : ℕ) → j < a.external_nlba → j ≢ i → block_of a m' j ≡ block_of a m j
  block_kept j j_in ne = rw (map_same b a size g m m' lane i c lane_in i_in t j j_in ne)

  module _ (unmapped : block_of a m' i ≡ block_of a m i) (valid : get32 m' slot < a.external_nlba)
      (seq : get32 m' (slot + 12) ≡ get32 m (slot + 12)) where
    all_kept : (j : ℕ) → j < a.external_nlba → block_of a m' j ≡ block_of a m j
    all_kept j j_in = elim (ℕ_discrete j i) [
      | yes e ↦ rw (e, unmapped)
      | no ne ↦ block_kept j j_in ne
    ]

    pairs_kept :
        (k : ℕ) → k < b.nfree → PairAt a.external_nlba m' (a.flogoff + 64 * k) (flog_at a k)
    pairs_kept k k_in = elim (ℕ_discrete k lane) [
      | yes e ↦ rw e (pair_uncommitted b a size g m m' lane i c lane_in i_in t valid seq)
      | no ne ↦ pair_other b a size g m m' lane i c lane_in i_in t k k_in ne
    ]

    pub uncommitted-IsConsistent : IsConsistent b a m'
    uncommitted-IsConsistent = record {
      lanes = c.lanes;
      pairs = pairs_kept;
      mapped_in = λ j h. rw (all_kept j h) (c.mapped_in j h);
      free_in = c.free_in;
      mapped_apart = λ j k h l e. c.mapped_apart j k h l (sym (all_kept j h) ∙ e ∙ all_kept k l);
      free_apart = c.free_apart;
      mapped_not_free = λ j k h l e. c.mapped_not_free j k h l (sym (all_kept j h) ∙ e);
    }

  module _
      (at : At m' slot
        (advanced
          (flog_at a lane)
          i
          (locked i (map_word a m i))
          (free_of a lane + 3 * 2 ^ 30)).flog) where
    abbrev new_flog : FlogRuntime
    new_flog = advanced (flog_at a lane) i (locked i (map_word a m i)) (free_of a lane + 3 * 2 ^ 30)

    abbrev after : Arena
    after = arena_with a lane new_flog

    flog_here : flog_at after lane ≡ new_flog
    flog_here = get_or-set_self a.flogs lane new_flog zero_runtime (omega (arith, c.lanes))

    flog_there : (k : ℕ) → k ≢ lane → flog_at after k ≡ flog_at a k
    flog_there k ne = get_or-set_ne a.flogs lane k new_flog zero_runtime (λ e. ne (sym e))

    pub pairs_after :
        (k : ℕ) → k < b.nfree → PairAt a.external_nlba m' (a.flogoff + 64 * k) (flog_at after k)
    pairs_after k k_in = elim (ℕ_discrete k lane) [
      | yes e ↦
          rw (e, flog_here)
            (pair_committed b a size g m m' lane i c lane_in i_in t (locked i (map_word a m i))
              (free_of a lane + 3 * 2 ^ 30) at)
      | no ne ↦ rw (flog_there k ne) (pair_other b a size g m m' lane i c lane_in i_in t k k_in ne)
    ]

    -- The two blocks have changed places.
    block_after :
        map_word a m' i ≡ free_of a lane + 3 * 2 ^ 30
        → (j : ℕ) → j < a.external_nlba
        → block_of a m' j ≡ (if j == i then free_of a lane else block_of a m j)
    block_after mapped j j_in = elim (ℕ_discrete j i) [
      | yes e ↦ rw (e, mapped) (ground (arith, c.free_in lane, g))
      | no ne ↦ ground (arith, block_kept j j_in ne)
    ]

    free_after : (k : ℕ) → free_of after k ≡ (if k == lane then block_of a m i else free_of a k)
    free_after k = elim (ℕ_discrete k lane) [
      | yes e ↦ rw (e, flog_here) (ground (arith, g))
      | no ne ↦ rw (flog_there k ne) (ground arith)
    ]

    pub committed-IsConsistent :
        map_word a m' i ≡ free_of a lane + 3 * 2 ^ 30 → IsConsistent b after m'
    committed-IsConsistent mapped = record {
      lanes = length-set a.flogs lane new_flog ∙ c.lanes;
      pairs = pairs_after;
      mapped_in =
          λ j h. rw (block_after mapped j h) (ground (arith, c.mapped_in j, c.free_in lane));
      free_in = λ k h. rw (free_after k) (ground (arith, c.mapped_in i, c.free_in k));
      mapped_apart =
          λ j k h l e. apart j k h l (sym (block_after mapped j h) ∙ e ∙ block_after mapped k l);
      free_apart = λ j k h l e. frees j k h l (sym (free_after j) ∙ e ∙ free_after k);
      mapped_not_free =
          λ j k h l e. not_free j k h l (sym (block_after mapped j h) ∙ e ∙ free_after k);
    }
      where
        apart :
            (j k : ℕ)
            → j < a.external_nlba
            → k < a.external_nlba
            → (if j == i then free_of a lane else block_of a m j)
              ≡ (if k == i then free_of a lane else block_of a m k)
            → j ≡ k
        apart j k h l =
            ground (arith, c.mapped_apart j k, c.mapped_not_free j lane, c.mapped_not_free k lane)

        frees :
            (j k : ℕ)
            → j < b.nfree
            → k < b.nfree
            → (if j == lane then block_of a m i else free_of a j)
              ≡ (if k == lane then block_of a m i else free_of a k)
            → j ≡ k
        frees j k h l =
            ground (arith, c.free_apart j k, c.mapped_not_free i j, c.mapped_not_free i k)

        not_free :
            (j k : ℕ)
            → j < a.external_nlba
            → k < b.nfree
            → (if j == i then free_of a lane else block_of a m j)
              ≢ (if k == lane then block_of a m i else free_of a k)
        not_free j k h l = ground (
          arith,
          c.mapped_apart j i,
          c.free_apart lane k,
          c.mapped_not_free i lane,
          c.mapped_not_free j k,
        )
