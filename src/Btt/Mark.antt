-- ===== src/Btt/Mark.antt =====
-- btt_set_zero and btt_set_error in a laid out and consistent arena.
use nvml.Base.{
  ℕ, ◌+◌, ◌*◌, ◌/◌, ◌^◌, ◌<◌, ◌≤◌, ◌≡◌, ◌≢◌, refl, ◌∙◌, inl, inr, replicate, bit_and, bit_or,
  Bool-cases, true, ◌==◌, if◌then◌else◌, arith,
}
use nvml.Base.Bits.{bit_or_disjoint}
use nvml.Base.Memory.{get32, get32-lt, get32-store-le32, get32-store-Apart, store-Outside, le32}
use nvml.Base.Outcome.{ok, err, eio}
use nvml.Btt.{Btt, Dev, flog_at, flag_error}
use nvml.Btt.Entry.{entry_lba, entry_lba-mod, zero_entry, error_entry, is_zero_or_initial_lem}
use nvml.Btt.FreeList.{next_off}
use nvml.Btt.Block.{setf_block}
use nvml.Btt.View.{IsLaidOut, IsConsistent, map_word, block_of, free_of, contents}
use nvml.Btt.Access.{stored}
use nvml.Btt.Steps.{locked, map_lock_lem, map_unlock_lem}
use nvml.Btt.Touched.{Touched, contents_other, slot_in}
use nvml.Btt.Commit.{uncommitted-IsConsistent}

module _ (b : Btt) (d : Dev) (i : ℕ) (g : IsLaidOut b d.arena d.ns.datasize)
    (c : IsConsistent b d.arena d.ns.mem) (some_lane : 0 < b.nfree)
    (i_in : i < d.arena.external_nlba) where
  abbrev pub w : ℕ
  w = map_word d.arena d.ns.mem i

  abbrev pub block : ℕ
  block = block_of d.arena d.ns.mem i

  -- The device once the map entry holds the block with other state bits.
  abbrev pub marked : ℕ → Dev
  marked setf = stored d (d.arena.mapoff + 4 * i) (le32 (block + setf))

  w_small : w < 2 ^ 32
  w_small = get32-lt d.ns.mem (d.arena.mapoff + 4 * i)

  block_small : block < 2 ^ 30
  block_small = omega (arith, c.mapped_in i i_in)

  locked_lba : entry_lba (locked i w) ≡ block
  locked_lba = entry_lba-mod (locked i w) ∙ ground (arith, g)

  locked_small : locked i w < 2 ^ 32
  locked_small = ground (arith, w_small, g)

  module _ (q : ℕ) (lo : 1 ≤ q) (hi : q ≤ 2) where
    abbrev bits : ℕ
    bits = q * 2 ^ 30

    marked_word : map_word d.arena (marked bits).ns.mem i ≡ block + bits
    marked_word =
        get32-store-le32 d.ns.mem (d.arena.mapoff + 4 * i) (block + bits)
          (omega (arith, block_small))

    marked-Touched :
        Touched b d.arena
          (free_of d.arena 0)
          (next_off (flog_at d.arena 0))
          i
          d.ns.mem
          (marked bits).ns.mem
    marked-Touched x p r s =
        store-Outside d.ns.mem (d.arena.mapoff + 4 * i) (le32 (block + bits)) x s

    slot_kept : (o : ℕ) → d.arena.flogoff ≤ o → get32 (marked bits).ns.mem o ≡ get32 d.ns.mem o
    slot_kept o h =
        get32-store-Apart d.ns.mem (d.arena.mapoff + 4 * i) (le32 (block + bits)) o (omega arith)

    marked-block : block_of d.arena (marked bits).ns.mem i ≡ block
    marked-block = rw marked_word (ground (arith, block_small))

    slot_lo : d.arena.flogoff ≤ next_off (flog_at d.arena 0)
    slot_lo = omega (
      arith,
      slot_in b d.arena d.ns.datasize g d.ns.mem (marked bits).ns.mem 0 i c some_lane i_in
          marked-Touched,
    )

    pub marked-IsConsistent : IsConsistent b d.arena (marked bits).ns.mem
    marked-IsConsistent =
        uncommitted-IsConsistent b d.arena d.ns.datasize g d.ns.mem (marked bits).ns.mem 0 i c
          some_lane i_in marked-Touched marked-block
          (rw (slot_kept (next_off (flog_at d.arena 0)) slot_lo) (c.pairs 0 some_lane).stale_valid)
          (slot_kept (next_off (flog_at d.arena 0) + 12) (omega (arith, slot_lo)))

    pub marked_other :
        (j : ℕ)
        → j < d.arena.external_nlba
        → j ≢ i
        → contents b d.arena (marked bits).ns.mem j ≡ contents b d.arena d.ns.mem j
    marked_other =
        contents_other b d.arena d.ns.datasize g d.ns.mem (marked bits).ns.mem 0 i c some_lane i_in
          marked-Touched

    mark_entry : bit_or block bits ≡ block + bits
    mark_entry = bit_or_disjoint 30 block q block_small

  pub marked_error : contents b d.arena (marked error_entry).ns.mem i ≡ err eio
  unfolding contents
  marked_error = rw (marked_word 1 (omega arith) (omega arith)) (ground (arith, block_small))

  pub marked_zero : contents b d.arena (marked zero_entry).ns.mem i ≡ ok (replicate b.lbasize 0)
  unfolding contents
  marked_zero = rw (marked_word 2 (omega arith) (omega arith)) (ground (arith, block_small))

  pub unmarked_zero :
      (w / 2 ^ 30 == 2) ≡ true → contents b d.arena d.ns.mem i ≡ ok (replicate b.lbasize 0)
  unfolding contents
  unmarked_zero e = ground arith

  module _ (clear : bit_and d.arena.flags flag_error ≡ 0) where
    -- An error mark is always written.
    pub set_error_run : setf_block i error_entry d ≡ (ok tt, marked error_entry)
    unfolding setf_block
    set_error_run = ground (
      arith,
      clear,
      map_lock_lem d g i i_in,
      locked_lba,
      mark_entry 1 (omega arith) (omega arith),
      map_unlock_lem d g (block + error_entry) i i_in,
    )

    -- A zero mark is written unless it is there.
    pub set_zero_run :
        setf_block i zero_entry d
        ≡ (if w / 2 ^ 30 == 2 then (ok tt, d) else (ok tt, marked zero_entry))
    unfolding setf_block
    set_zero_run = ground (
      arith,
      clear,
      map_lock_lem d g i i_in,
      locked_lba,
      is_zero_or_initial_lem (locked i w) locked_small,
      g,
      mark_entry 2 (omega arith) (omega arith),
      map_unlock_lem d g (block + zero_entry) i i_in,
    )

    -- btt_set_error on an arena that is not in an error state succeeds. Then the block reads as an
    -- I/O error, every other block reads as before, and the arena is consistent.
    pub set_error-contents :
        let (r, d') = setf_block i error_entry d in
        (r ≡ ok tt)
        × (contents b d'.arena d'.ns.mem i ≡ err eio)
        × ((j : ℕ)
            → j < d.arena.external_nlba
            → j ≢ i
            → contents b d'.arena d'.ns.mem j ≡ contents b d.arena d.ns.mem j)
        × IsConsistent b d'.arena d'.ns.mem
    set_error-contents = rw set_error_run (
      refl,
      marked_error,
      marked_other 1 (omega arith) (omega arith),
      marked-IsConsistent 1 (omega arith) (omega arith),
    )

    -- btt_set_zero on an arena that is not in an error state succeeds. Then the block reads as
    -- zeros, every other block reads as before, and the arena is consistent.
    pub set_zero-contents :
        let (r, d') = setf_block i zero_entry d in
        (r ≡ ok tt)
        × (contents b d'.arena d'.ns.mem i ≡ ok (replicate b.lbasize 0))
        × ((j : ℕ)
            → j < d.arena.external_nlba
            → j ≢ i
            → contents b d'.arena d'.ns.mem j ≡ contents b d.arena d.ns.mem j)
        × IsConsistent b d'.arena d'.ns.mem
    set_zero-contents = elim (Bool-cases (w / 2 ^ 30 == 2)) [
      | inl e ↦ rw (set_zero_run, e) (refl, unmarked_zero e, λ j h ne. refl, c)
      | inr e ↦
          rw (set_zero_run, e)
            (
              refl,
              marked_zero,
              marked_other 2 (omega arith) (omega arith),
              marked-IsConsistent 2 (omega arith) (omega arith),
            )
    ]
