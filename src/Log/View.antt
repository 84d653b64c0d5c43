-- ===== src/Log/View.antt =====
-- What a log pool of src/libpmemlog/log.c stands for: a list of bytes and a capacity.
use nvml.Base.{ℕ, ◌-◌, ◌≤◌, ◌≡◌, List, ◌++◌, length, ltb, leb, ◌||◌, if◌then◌else◌}
use nvml.Base.Memory.{load}
use nvml.Base.Outcome.{Run, pure, fail, enospc}
use nvml.Log.{Log, start_offset, end_offset, write_offset, data_start}

pub record IsLog (l : Log) : Type 0 where
  pub starts : start_offset l ≡ data_start
  pub ends : end_offset l ≡ l.size
  pub above : data_start ≤ write_offset l
  pub below : write_offset l ≤ l.size

-- The bytes appended so far.
abbrev pub contents : Log → List ℕ
contents l = load l.mem data_start (write_offset l - data_start)

abbrev pub capacity : Log → ℕ
capacity l = l.size - data_start

-- Appending as a client sees it: all or nothing, and nothing goes into a full log.
abbrev pub push : ℕ → List ℕ → Run (List ℕ) (Unit {0})
push cap buf xs =
    if leb cap (length xs) || ltb (cap - length xs) (length buf)
    then fail enospc xs
    else pure tt (xs ++ buf)
