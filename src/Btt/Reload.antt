-- ===== src/Btt/Reload.antt =====
-- The loop of read_flogs over all pairs of an arena.
use nvml.Base.{
  ℕ, zero, suc, ◌+◌, ◌*◌, ◌<◌, ◌≤◌, ◌≡◌, ◌≢◌, refl, List, [], ◌∷◌, length, get_or, arith,
}
use nvml.Base.Memory.{Mem}
use nvml.Base.Outcome.{ok}
use nvml.Btt.{Btt, Dev, FlogRuntime, zero_runtime}
use nvml.Btt.FreeList.{complete_flog, read_pairs}
use nvml.Btt.View.{IsLaidOut, PairAt}
use nvml.Btt.Access.{stored}
use nvml.Btt.Recover.{read_flog_pair_lem}

-- The pairs at `off` and on hold these run-time states.
abbrev pub PairsAt : ℕ → Mem → ℕ → List FlogRuntime → Type 0
PairsAt ext m off rts =
    (k : ℕ) → k < length rts → PairAt ext m (off + 64 * k) (get_or rts k zero_runtime)

PairsAt-tail :
    (ext : ℕ) (m : Mem) (off : ℕ) (rt : FlogRuntime) (rts : List FlogRuntime)
    → PairsAt ext m off (rt ∷ rts)
    → PairsAt ext m (off + 64) rts
PairsAt-tail ext m off rt rts p k h =
    let e : off + 64 * suc k ≡ off + 64 + 64 * k = omega arith in rw e at (p (suc k) (omega arith))

PairsAt-head :
    (ext : ℕ) (m : Mem) (off : ℕ) (rt : FlogRuntime) (rts : List FlogRuntime)
    → PairsAt ext m off (rt ∷ rts)
    → PairAt ext m off rt
PairsAt-head ext m off rt rts p =
    let e : off + 64 * 0 ≡ off = omega arith in rw e at (p 0 (omega arith))

module _ {b : Btt} (lane : ℕ) (lane_in : lane < b.nfree) where
  -- Nothing to complete: the loop only reads.
  pub read_pairs_done :
      (d : Dev) (off : ℕ) (rts : List FlogRuntime)
      → IsLaidOut b d.arena d.ns.datasize
      → 0 < off
      → off + 64 * length rts ≤ d.ns.datasize
      → PairsAt d.arena.external_nlba d.ns.mem off rts
      → ((k : ℕ) → k < length rts → complete_flog (get_or rts k zero_runtime).flog d ≡ (ok tt, d))
      → read_pairs b lane off (length rts) d ≡ (ok rts, d)
  unfolding read_pairs
  read_pairs_done d off [] g pos fits p done = refl
  read_pairs_done d off (rt ∷ rts) g pos fits p done = ground (
    arith,
    read_flog_pair_lem d g lane off rt d (PairsAt-head d.arena.external_nlba d.ns.mem off rt rts p)
        lane_in pos (omega arith) (done 0 (omega arith)),
    read_pairs_done d (off + 64) rts g (omega arith) (omega arith)
        (PairsAt-tail d.arena.external_nlba d.ns.mem off rt rts p)
        (λ k h. done (suc k) (omega arith)),
  )

  -- One lane's write is completed by a store, and the loop goes on behind it.
  pub read_pairs_pending :
      (d : Dev) (at : ℕ) (bs : List ℕ) (off : ℕ) (rts : List FlogRuntime) (pending : ℕ)
      → IsLaidOut b d.arena d.ns.datasize
      → 0 < off
      → off + 64 * length rts ≤ d.ns.datasize
      → pending < length rts
      → PairsAt d.arena.external_nlba d.ns.mem off rts
      → PairsAt d.arena.external_nlba (stored d at bs).ns.mem off rts
      → complete_flog (get_or rts pending zero_runtime).flog d ≡ (ok tt, stored d at bs)
      → ((k : ℕ)
          → k < length rts
          → k ≢ pending
          → complete_flog (get_or rts k zero_runtime).flog d ≡ (ok tt, d))
      → ((k : ℕ)
          → k < length rts
          → k ≢ pending
          → complete_flog (get_or rts k zero_runtime).flog (stored d at bs)
            ≡ (ok tt, stored d at bs))
      → read_pairs b lane off (length rts) d ≡ (ok rts, stored d at bs)
  unfolding read_pairs
  read_pairs_pending d at bs off [] pending g pos fits lt p p' now before after =
      absurd (omega arith)
  read_pairs_pending d at bs off (rt ∷ rts) zero g pos fits lt p p' now before after = ground (
    arith,
    read_flog_pair_lem d g lane off rt (stored d at bs)
        (PairsAt-head d.arena.external_nlba d.ns.mem off rt rts p) lane_in pos (omega arith) now,
    read_pairs_done (stored d at bs) (off + 64) rts g (omega arith) (omega arith)
        (PairsAt-tail d.arena.external_nlba (stored d at bs).ns.mem off rt rts p')
        (λ k h. after (suc k) (omega arith) (omega arith)),
  )
  read_pairs_pending d at bs off (rt ∷ rts) (suc pending) g pos fits lt p p' now before after =
      ground (
        arith,
        read_flog_pair_lem d g lane off rt d
            (PairsAt-head d.arena.external_nlba d.ns.mem off rt rts p) lane_in pos (omega arith)
            (before 0 (omega arith) (omega arith)),
        read_pairs_pending d at bs (off + 64) rts pending g (omega arith) (omega arith)
            (omega arith) (PairsAt-tail d.arena.external_nlba d.ns.mem off rt rts p)
            (PairsAt-tail d.arena.external_nlba (stored d at bs).ns.mem off rt rts p') now
            (λ k h ne. before (suc k) (omega arith) (omega arith))
            (λ k h ne. after (suc k) (omega arith) (omega arith)),
      )
