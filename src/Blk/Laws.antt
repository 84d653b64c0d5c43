-- ===== src/Blk/Laws.antt =====
-- What the calls of src/libpmemblk/blk.c on an open pool promise: an array of blocks.
use nvml.Base.{
  if_false, ℕ, ◌<◌, ◌≤◌, ◌≡◌, ◌≢◌, refl, sym, ap, subst, ◌∙◌, List, length, if◌then◌else◌, false,
  replicate, arith,
}
use nvml.Base.Outcome.{Result, Run, ok, err, eio, einval, erofs}
use nvml.Btt.FreeList.{invalid_lba}
use nvml.Btt.Table.{Table, btt_read}
use nvml.Btt.Update.{btt_write, btt_set_zero, btt_set_error, map_entry_setf}
use nvml.Btt.Array.{
  IsReady, Assigns, block, btt_read-block, btt_write-Assigns, btt_set_zero-Assigns,
  btt_set_error-Assigns,
}
use nvml.Blk.{Pool, lane_enter, in_lane, nblock, read, write, set_zero, set_error}

-- An open pool between two calls.
pub record IsPool (p : Pool) : Type 0 where
  pub ready : IsReady p.table
  pub lanes : 0 < p.nlane
  pub enough_lanes : p.nlane ≤ p.table.btt.nlane

-- The pool when a lane has been picked.
abbrev entered : Pool → Pool
entered p = (lane_enter p).1

module _ (p : Pool) (c : IsPool p) where
  -- The lane that is picked is one of the table's.
  lane_in : (lane_enter p).0 < p.table.btt.nlane
  lane_in = grind (arith, c)

  pub read-block : (i : ℕ) → i < nblock p → read i p ≡ (block p.table i, entered p)
  unfolding read nblock
  read-block i lt = rw (btt_read-block p.table (lane_enter p).0 i c.ready lane_in lt) refl

-- A call that assigns to a block, seen by readers: it succeeds and leaves an open pool with as many
-- blocks, from which the block reads as the new contents, and any other block as before.
abbrev pub Puts : Pool → ℕ → Result (Unit {0}) × Pool → Result (List ℕ) → Type 0
Puts p i (r, p') v =
    (r ≡ ok tt)
    × IsPool p'
    × (nblock p' ≡ nblock p)
    × ((read i p').0 ≡ v)
    × ((j : ℕ) → j < nblock p → j ≢ i → (read j p').0 ≡ (read j p).0)

module _ (p : Pool) (i : ℕ) (c : IsPool p) (i_in : i < nblock p) where
  -- A call on the table in the lane that was picked.
  puts :
      (run : ℕ → Run Table (Unit {0})) (v : Result (List ℕ))
      → (let (r, t') = run (lane_enter p).0 p.table in (r ≡ ok tt) × Assigns p.table t' i v)
      → Puts p i (in_lane run p) v
  unfolding nblock
  puts run v (done, a) = (
    done,
    kept,
    a.nlba_same,
    ap (λ r. r.0) (read-block after kept i (rw a.nlba_same i_in)) ∙ a.new,
    λ j lt ne.
        ap (λ r. r.0) (read-block after kept j (rw a.nlba_same lt))
        ∙ a.old j lt ne
        ∙ sym (ap (λ r. r.0) (read-block p c j lt)),
  )
    where
      after : Pool
      after = (in_lane run p).1

      kept : IsPool after
      kept = record {
        ready = a.ready;
        lanes = c.lanes;
        enough_lanes = omega (arith, a.nlane_same, c);
      }

  in_table : i < p.table.btt.nlba
  unfolding nblock
  in_table = i_in

  module _ (writable : p.rdonly ≡ false) where
    -- On an open pool that is writable, whose layout is written and consistent, with at most 4 GiB of
    -- data in an arena, pmemblk_write of a whole block to a block number in range succeeds; then
    -- pmemblk_read of the block gives the bytes, and of any other block what it would have given.
    pub write-Puts :
        (buf : List ℕ) → length buf ≡ p.table.btt.lbasize → Puts p i (write buf i p) (ok buf)
    unfolding write
    write-Puts buf full =
        subst (λ r. Puts p i r (ok buf)) (sym (if_false p.rdonly _ _ writable))
          (puts (λ lane. btt_write lane i buf) (ok buf)
            (btt_write-Assigns p.table (lane_enter p).0 i c.ready (lane_in p c) in_table buf full))

    -- Under the same conditions pmemblk_set_zero succeeds, and then the block reads as zeros and
    -- any other block as before.
    pub set_zero-Puts : Puts p i (set_zero i p) (ok (replicate p.table.btt.lbasize 0))
    unfolding set_zero
    set_zero-Puts =
        subst (λ r. Puts p i r (ok (replicate p.table.btt.lbasize 0)))
          (sym (if_false p.rdonly _ _ writable))
          (puts (λ lane. btt_set_zero lane i) (ok (replicate p.table.btt.lbasize 0))
            (btt_set_zero-Assigns p.table (lane_enter p).0 i c.ready (lane_in p c) in_table))

    -- Under the same conditions pmemblk_set_error succeeds, and then reading the block fails with
    -- EIO and any other block reads as before.
    pub set_error-Puts : Puts p i (set_error i p) (err eio)
    unfolding set_error
    set_error-Puts =
        subst (λ r. Puts p i r (err eio)) (sym (if_false p.rdonly _ _ writable))
          (puts (λ lane. btt_set_error lane i) (err eio)
            (btt_set_error-Assigns p.table (lane_enter p).0 i c.ready (lane_in p c) in_table))

-- With a block number past the end every call on a writable pool returns EINVAL, and so does a read
-- of any pool; of the pool only the choice of the next lane changes.
pub past_end_refused :
    (p : Pool) (i : ℕ) (buf : List ℕ)
    → nblock p ≤ i
    → let writing : Result (Unit {0}) × Pool =
        if p.rdonly then (err erofs, p) else (err einval, entered p) in
      (read i p ≡ (err einval, entered p))
      × (write buf i p ≡ writing)
      × (set_zero i p ≡ writing)
      × (set_error i p ≡ writing)
unfolding write set_zero set_error read nblock btt_write map_entry_setf btt_read invalid_lba
past_end_refused p i buf le = ground arith
