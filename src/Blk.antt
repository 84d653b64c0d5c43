-- ===== src/Blk.antt =====
-- src/libpmemblk/blk.c: a pool of blocks. The namespace of the BTT is the data area of the pool.
-- The per-lane locks are left out, since each call runs alone, and so are mapping and allocation.
pub mod Open
pub mod Laws
pub mod Create
pub mod File
mod Tests
use nvml.Base.{ℕ, ◌+◌, ◌*◌, ◌%◌, List, Bool, if◌then◌else◌}
use nvml.Base.Outcome.{Run, Result, fail, erofs}
use nvml.Namespace.{u32}
use nvml.Btt.Entry.{zero_entry}
use nvml.Btt.Table.{Table, btt_read, btt_nlba}
use nvml.Btt.Update.{btt_write, btt_set_zero, btt_set_error}
use nvml.Btt.Check.{btt_check}

-- The run-time state of `struct pmemblk`: the BTT on its namespace, and the choice of lanes.
pub record Pool : Type 0 where
  pub table : Table
  pub rdonly : Bool
  pub nlane : ℕ
  pub next_lane : ℕ

-- lane_enter: __sync_fetch_and_add on an unsigned counter.
abbrev pub lane_enter : Pool → ℕ × Pool
lane_enter p = (p.next_lane % p.nlane, record p { next_lane = u32 (p.next_lane + 1) })

-- A call on the BTT between lane_enter and lane_exit.
abbrev pub in_lane {ℓ} : {A : Type ℓ} → (ℕ → Run Table A) → Run Pool A
in_lane run p =
    let (lane, p') = lane_enter p in let (r, t) = run lane p'.table in (r, record p' { table = t })

unfoldable pub nblock : Pool → ℕ
nblock p = btt_nlba p.table.btt

unfoldable pub read : ℕ → Run Pool (List ℕ)
read blockno = in_lane (λ lane. btt_read lane blockno)

unfoldable pub write : List ℕ → ℕ → Run Pool (Unit {0})
write buf blockno p =
    if p.rdonly then fail erofs p else in_lane (λ lane. btt_write lane blockno buf) p

unfoldable pub set_zero : ℕ → Run Pool (Unit {0})
set_zero blockno p =
    if p.rdonly then fail erofs p else in_lane (λ lane. btt_set_zero lane blockno) p

unfoldable pub set_error : ℕ → Run Pool (Unit {0})
set_error blockno p =
    if p.rdonly then fail erofs p else in_lane (λ lane. btt_set_error lane blockno) p
