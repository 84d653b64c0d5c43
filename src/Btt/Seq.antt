-- ===== src/Btt/Seq.antt =====
-- The cycle of flog sequence numbers, and the choice of the current entry of a pair.
use nvml.Base.{ℕ, zero, suc, ◌≤◌, ◌≡◌, ◌≢◌, inl, inr, refl, some, arith}
use nvml.Btt.{Flog}
use nvml.Btt.FreeList.{nseq, current_flog}
use nvml.Btt.View.{Precedes}

-- The sequence numbers 1, 2, 3 go round: the next is another one, and so is the one after it.
pub nseq_cycle :
    (s : ℕ)
    → 1 ≤ s
    → s ≤ 3
    → (1 ≤ nseq s) × (nseq s ≤ 3) × (nseq s ≢ s) × (nseq (nseq s) ≢ s) × (nseq (nseq (nseq s)) ≡ s)
unfolding nseq
nseq_cycle zero lo hi = absurd (omega arith)
nseq_cycle (suc zero) lo hi = (omega arith, omega arith, omega arith, omega arith, refl)
nseq_cycle (suc (suc zero)) lo hi = (omega arith, omega arith, omega arith, omega arith, refl)
nseq_cycle (suc (suc (suc zero))) lo hi = (omega arith, omega arith, omega arith, omega arith, refl)
nseq_cycle (suc (suc (suc (suc s)))) lo hi = absurd (omega arith)

-- The second entry is current if its sequence number follows that of the first.
pub current_flog_second :
    (p0 p1 : Flog)
    → 1 ≤ p1.seq
    → p1.seq ≤ 3
    → Precedes p0.seq p1.seq
    → current_flog p0 p1 ≡ some (p1, 0)
unfolding current_flog
current_flog_second p0 p1 lo hi (inl e) = ground arith
current_flog_second p0 p1 lo hi (inr (l, h, e)) = ground (arith, nseq_cycle p0.seq l h)

-- The first entry is current if its sequence number follows that of the second.
pub current_flog_first :
    (p0 p1 : Flog)
    → 1 ≤ p0.seq
    → p0.seq ≤ 3
    → Precedes p1.seq p0.seq
    → current_flog p0 p1 ≡ some (p0, 1)
unfolding current_flog
current_flog_first p0 p1 lo hi (inl e) = ground arith
current_flog_first p0 p1 lo hi (inr (l, h, e)) =
    ground (arith, nseq_cycle p1.seq l h, nseq_cycle p0.seq lo hi)
