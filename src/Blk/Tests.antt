-- ===== src/Blk/Tests.antt =====
-- An open pool of three blocks, and calls on it.
use nvml.Base.{ℕ, ◌≤◌, ◌<◌, ◌≡◌, ◌≢◌, refl, List, [], ◌∷◌, true, false, replicate, arith}
use nvml.Base.Outcome.{ok, err, eio, einval}
use nvml.Btt.TableTests.{table, table-IsReady}
use nvml.Blk.{Pool, nblock, read, write, set_zero, set_error}
use nvml.Header.Tests.{blank_file, blank-zeroed}
use nvml.Blk.Open.{Outside, check_pool, initialize_pool}
use nvml.Blk.Create.{check-initialize}
use nvml.Blk.File.{PoolFile, min_pool}
use nvml.Blk.Laws.{IsPool, Puts, write-Puts, set_zero-Puts, set_error-Puts, past_end_refused}

-- Its two lanes are picked in turn.
abbrev pool : Pool
pool = record { table = table; rdonly = false; nlane = 2; next_lane = 0 }

pool-IsPool : IsPool pool
pool-IsPool = record { ready = table-IsReady; lanes = omega arith; enough_lanes = omega arith }

abbrev text : List ℕ
text = 1 ∷ 2 ∷ 3 ∷ 4 ∷ 5 ∷ 6 ∷ 7 ∷ 8 ∷ []

two_in : 2 < nblock pool
unfolding nblock
two_in = omega arith

write-Puts_example : Puts pool 2 (write text 2 pool) (ok text)
write-Puts_example = write-Puts pool 2 pool-IsPool two_in refl text refl

set_zero-Puts_example : Puts pool 2 (set_zero 2 pool) (ok (replicate 8 0))
set_zero-Puts_example = set_zero-Puts pool 2 pool-IsPool two_in refl

set_error-Puts_example : Puts pool 2 (set_error 2 pool) (err eio)
set_error-Puts_example = set_error-Puts pool 2 pool-IsPool two_in refl

abbrev sealed : Pool
sealed = record pool { rdonly = true }

three_past : nblock pool ≤ 3
unfolding nblock
three_past = omega arith

past_end_refused_example :
    (read 3 pool ≡ (err einval, record pool { next_lane = 1 }))
    × (write text 3 pool ≡ (err einval, record pool { next_lane = 1 }))
    × (set_zero 3 pool ≡ (err einval, record pool { next_lane = 1 }))
    × (set_error 3 pool ≡ (err einval, record pool { next_lane = 1 }))
past_end_refused_example = past_end_refused pool 3 text three_past

abbrev outside : Outside
outside = record { uuid = replicate 16 7; crtime = 12; ncpus = 1 }

check-initialize_example :
    let (r, m') = initialize_pool outside 512 true blank_file in
    (r ≡ ok (512, false))
    × (check_pool 0 true m' ≡ (ok (512, true), m'))
    × (check_pool 512 true m' ≡ (ok (512, true), m'))
    × ((other : ℕ) → other ≢ 0 → other ≢ 512 → check_pool other true m' ≡ (err einval, m'))
check-initialize_example =
    check-initialize outside 512 true true blank_file refl blank-zeroed (omega arith) (omega arith)

-- A file of the least size, all zeros.
abbrev small_file : PoolFile
small_file = record { bytes = blank_file; size = min_pool }
