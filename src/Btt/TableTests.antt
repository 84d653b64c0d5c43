-- ===== src/Btt/TableTests.antt =====
-- A table of one arena, the one of Tests.
use nvml.Base.{ℕ, zero, suc, true, none, ◌≡◌, refl, sym, ◌∙◌, ◌<◌, get_elem?, some, [], ◌∷◌, arith}
use nvml.Btt.{Arena}
use nvml.Btt.Table.{Table}
use nvml.Btt.Lookup.{IsTable}
use nvml.Btt.Entry.{error_entry}
use nvml.Btt.Spread.{IsSpread}
use nvml.Btt.Array.{IsReady}
use nvml.Btt.Tests.{arena, media, btt, dev-IsLaidOut, dev-IsConsistent}

abbrev pub table : Table
table = record {
  ns = record { mem = media; datasize = 1472; is_zeroed = true; journal = [] };
  btt = btt;
}

no_arena : {a : Arena} → ¬ (none ≡ some a)
no_arena e = cc

only_arena : (k : ℕ) (a : Arena) → get_elem? (arena ∷ []) k ≡ some a → arena ≡ a
only_arena zero a e = cc
only_arena (suc k) a e = absurd (no_arena e)

pub table-IsTable : IsTable table
table-IsTable = record {
  laidout = refl;
  arenas_all = refl;
  lbas_all = refl;
  laid_out = λ k a e. rw⁻¹ (only_arena k a e) dev-IsLaidOut;
  consistent = λ k a e. rw⁻¹ (only_arena k a e) dev-IsConsistent;
}

only_number : (k : ℕ) (a : Arena) → get_elem? (arena ∷ []) k ≡ some a → k ≡ 0
only_number zero a e = refl
only_number (suc k) a e = absurd (no_arena e)

table-IsSpread : IsSpread table
table-IsSpread k l a a' e f ne = absurd (ne (only_number k a e ∙ sym (only_number l a' f)))

both_idle :
    (lane : ℕ) → lane < 2 → get_elem? (error_entry ∷ error_entry ∷ []) lane ≡ some error_entry
both_idle zero h = refl
both_idle (suc zero) h = refl
both_idle (suc (suc lane)) h = absurd (omega arith)

pub table-IsReady : IsReady table
table-IsReady = record {
  table = table-IsTable;
  spread = table-IsSpread;
  lanes = omega arith;
  enough_free = omega arith;
  idle = λ k a e. rw⁻¹ (only_arena k a e) both_idle;
  clear = λ k a e. rw⁻¹ (only_arena k a e) refl;
}
