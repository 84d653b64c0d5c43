-- ===== src/Btt/Crash/Atomic.antt =====
-- btt_write is atomic under power failure.
use nvml.Base.{
  ℕ, ◌%◌, ◌^◌, ◌<◌, ◌≡◌, ◌≢◌, ◌⊎◌, refl, sym, ap, inl, inr, List, [], length, bit_and, take, false,
  get_or, get_or-set_self, get_or-set_ne, arith,
}
use nvml.Base.Memory.{Mem, le32}
use nvml.Base.Outcome.{ok}
use nvml.Namespace.{crash_after}
use nvml.Btt.{Btt, Dev, Arena, FlogRuntime, flog_at, flag_error, zero_runtime}
use nvml.Btt.FreeList.{read_flogs}
use nvml.Btt.Block.{write_block, being_read}
use nvml.Btt.View.{IsLaidOut, IsConsistent, block_of, block_named, contents}
use nvml.Btt.Access.{stored}
use nvml.Btt.Steps.{locked}
use nvml.Btt.Stores.{
  map_at, new_entry, new_runtime, mem3, mem4, touched3, touched4, map3, map4, slot3, slot4,
  contents4,
}
use nvml.Btt.Touched.{contents_other, contents_kept}
use nvml.Btt.Commit.{
  arena_with, uncommitted-IsConsistent, committed-IsConsistent, pairs_after, block_kept,
}
use nvml.Btt.Write.{write_block-contents}
use native.Mathlib.Decide.{ℕ_discrete}
use nvml.Btt.Crash.Fate.{stores, IsUncommitted, crash_cases}
use nvml.Btt.Crash.Restart.{restart, with_flogs, reload_consistent, reload_pending}

-- After `m'` is opened again and its flog is loaded by lane `rl`, the write of `buf` to `i` has
-- either happened or not.
abbrev pub IsAtomic : Btt → Dev → ℕ → List ℕ → ℕ → Mem → Type 0
IsAtomic b d i buf rl m' =
    let (r, e) = read_flogs b rl (restart d m') in
    (r ≡ ok tt)
    × IsConsistent b e.arena e.ns.mem
    × ((j : ℕ)
        → j < d.arena.external_nlba
        → j ≢ i
        → contents b e.arena e.ns.mem j ≡ contents b d.arena d.ns.mem j)
    × ((contents b e.arena e.ns.mem i ≡ contents b d.arena d.ns.mem i)
        ⊎ (contents b e.arena e.ns.mem i ≡ ok buf))

module _ (b : Btt) (d : Dev) (lane i : ℕ) (buf : List ℕ) (g : IsLaidOut b d.arena d.ns.datasize)
    (c : IsConsistent b d.arena d.ns.mem) (lane_in : lane < b.nfree)
    (i_in : i < d.arena.external_nlba) (full : length buf ≡ b.lbasize) (rl : ℕ)
    (rl_in : rl < b.nfree) where
  abbrev a : Arena
  a = d.arena

  abbrev m : Mem
  m = d.ns.mem

  uncommitted-IsAtomic : (m' : Mem) → IsUncommitted b a m lane i m' → IsAtomic b d i buf rl m'
  unfolding contents
  uncommitted-IsAtomic m' u = rw (reload_consistent b d rl rl_in g m' a.flogs kept) (
    refl,
    kept,
    contents_other b a d.ns.datasize g m m' lane i c lane_in i_in u.touched,
    inl (contents_kept b a d.ns.datasize g m m' lane i c lane_in i_in u.touched i i_in u.unmapped),
  )
    where
      kept : IsConsistent b a m'
      kept =
          uncommitted-IsConsistent b a d.ns.datasize g m m' lane i c lane_in i_in u.touched
            (ap (block_named i) u.unmapped) u.valid u.seq

  abbrev rts : List FlogRuntime
  rts = (arena_with a lane (new_runtime a m lane i)).flogs

  final : IsConsistent b (arena_with a lane (new_runtime a m lane i)) (mem4 a m lane i buf)
  final =
      committed-IsConsistent b a d.ns.datasize g m (mem4 a m lane i buf) lane i c lane_in i_in
        (touched4 b a d.ns.datasize g m lane i buf c lane_in i_in full)
        (slot4 b a d.ns.datasize g m lane i buf c lane_in i_in full)
        (map4 b a d.ns.datasize g m lane i buf c lane_in i_in full)

  finished-IsAtomic : IsAtomic b d i buf rl (mem4 a m lane i buf)
  unfolding contents
  finished-IsAtomic = rw (reload_consistent b d rl rl_in g (mem4 a m lane i buf) rts final) (
    refl,
    final,
    contents_other b a d.ns.datasize g m (mem4 a m lane i buf) lane i c lane_in i_in
        (touched4 b a d.ns.datasize g m lane i buf c lane_in i_in full),
    inr (contents4 b a d.ns.datasize g m lane i buf c lane_in i_in full),
  )

  here : get_or rts lane zero_runtime ≡ new_runtime a m lane i
  here = get_or-set_self a.flogs lane (new_runtime a m lane i) zero_runtime (omega (arith, c.lanes))

  there : (k : ℕ) → k ≢ lane → get_or rts k zero_runtime ≡ flog_at a k
  there k ne = get_or-set_ne a.flogs lane k (new_runtime a m lane i) zero_runtime (λ e. ne (sym e))

  mapped_kept : (j : ℕ) → j < a.external_nlba → block_of a (mem3 a m lane i buf) j ≡ block_of a m j
  mapped_kept j j_in = elim (ℕ_discrete j i) [
    | yes e ↦ rw (e, map3 b a d.ns.datasize g m lane i buf c lane_in i_in full)
    | no ne ↦
        block_kept b a d.ns.datasize g m (mem3 a m lane i buf) lane i c lane_in i_in
          (touched3 b a d.ns.datasize g m lane i buf c lane_in i_in full) j j_in ne
  ]

  pending_reload : read_flogs b rl (restart d (mem3 a m lane i buf)) ≡ (
    ok tt,
    with_flogs
        (stored (restart d (mem3 a m lane i buf)) (map_at a i) (le32 (new_entry a lane)))
        rts,
  )
  unfolding mem4
  pending_reload =
      reload_pending b d rl rl_in g (mem3 a m lane i buf) rts lane (new_runtime a m lane i).flog
        lane_in (ap (λ (rt : FlogRuntime). rt.flog) here) final
        (pairs_after b a d.ns.datasize g m (mem3 a m lane i buf) lane i c lane_in i_in
          (touched3 b a d.ns.datasize g m lane i buf c lane_in i_in full)
          (slot3 b a d.ns.datasize g m lane i buf c lane_in i_in full))
        apart (ap (locked i) (sym (map3 b a d.ns.datasize g m lane i buf c lane_in i_in full)))
        (λ e. c.mapped_not_free i lane i_in lane_in (ground (arith, g)))
    where
      apart :
          (j k : ℕ)
          → j < a.external_nlba
          → k < b.nfree
          → k ≢ lane
          → block_of a (mem3 a m lane i buf) j ≢ (get_or rts k zero_runtime).flog.old_map % 2 ^ 30
      apart j k j_in k_in ne = rw (there k ne, mapped_kept j j_in) (c.mapped_not_free j k j_in k_in)

  pending-IsAtomic : IsAtomic b d i buf rl (mem3 a m lane i buf)
  unfolding contents mem4
  pending-IsAtomic = rw pending_reload (
    refl,
    final,
    contents_other b a d.ns.datasize g m (mem4 a m lane i buf) lane i c lane_in i_in
        (touched4 b a d.ns.datasize g m lane i buf c lane_in i_in full),
    inr (contents4 b a d.ns.datasize g m lane i buf c lane_in i_in full),
  )

  stores-IsAtomic : (n t : ℕ) → IsAtomic b d i buf rl (crash_after m (stores a m lane i buf) n t)
  stores-IsAtomic n t =
      elim (crash_cases b a d.ns.datasize g m lane i buf c lane_in i_in full n t) [
        | inl u ↦ uncommitted-IsAtomic (crash_after m (stores a m lane i buf) n t) u
        | inr (inl e) ↦ rw e pending-IsAtomic
        | inr (inr e) ↦ rw e finished-IsAtomic
      ]

  -- Let the power fail during the write of a block by an idle lane, after any number `n` of its
  -- stores to the namespace and `t` words of the next one. When the arena is opened again, loading
  -- its flog succeeds and leaves it consistent; every other block has its contents, and the
  -- block that was written has its old contents or the new ones.
  pub write_block-IsAtomic :
      bit_and d.arena.flags flag_error ≡ 0
      → being_read (take b.nlane d.arena.rtt) (new_entry d.arena lane) ≡ false
      → d.ns.journal ≡ []
      → (n t : ℕ)
      → IsAtomic b d i buf rl (crash_after d.ns.mem (write_block b lane i buf d).1.ns.journal n t)
  write_block-IsAtomic clear quiet fresh n t = rw (journal) (stores-IsAtomic n t)
    where
      journal : (write_block b lane i buf d).1.ns.journal ≡ stores a m lane i buf
      journal =
          rw ((write_block-contents b d lane i buf g c lane_in i_in full clear quiet).0, fresh)
