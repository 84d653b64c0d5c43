-- ===== src/Log/Append.antt =====
-- What pmemlog_append, pmemlog_appendv, pmemlog_rewind, pmemlog_tell and pmemlog_nbyte do to the
-- bytes of a log.
use nvml.Base.{
  ℕ, ◌+◌, ◌-◌, ◌^◌, ◌≤◌, ◌<◌, ◌≡◌, ◌⊎◌, sym, ap, ◌∙◌, inl, inr, List, ◌++◌, length, false, arith,
}
use nvml.Base.Memory.{load, get64, le64, store-Apart, load-Agree, load-store, length-load}
use nvml.Base.Words64.{get64-lt, get64-store-le64, get64-store-Apart, load-add}
use nvml.Base.Outcome.{ok, err, enospc}
use nvml.Log.{Log, write_offset, write_off, data_start, copy_in, persist, append}
use nvml.Log.View.{IsLog, contents, capacity, push}

-- The write offset moved, which touches nothing else of the log.
module _ (l : Log) (g : IsLog l) (w : ℕ) (lo : data_start ≤ w) (hi : w ≤ l.size) where
  abbrev moved : Log
  moved = copy_in write_off (le64 w) l

  size_lt : l.size < 2 ^ 64
  size_lt = omega (arith, get64-lt l.mem 4104, g.ends)

  write_offset-moved : write_offset moved ≡ w
  write_offset-moved = get64-store-le64 l.mem write_off w (omega (arith, size_lt))

  pub moved-IsLog : IsLog moved
  moved-IsLog = record {
    starts = get64-store-Apart l.mem write_off (le64 w) 4096 (inr (omega arith)) ∙ g.starts;
    ends = get64-store-Apart l.mem write_off (le64 w) 4104 (inr (omega arith)) ∙ g.ends;
    above = rw write_offset-moved lo;
    below = rw write_offset-moved hi;
  }

  pub contents-moved : contents moved ≡ load l.mem data_start (w - data_start)
  contents-moved = rw write_offset-moved (
      load-Agree moved.mem l.mem data_start (w - data_start)
        (store-Apart l.mem write_off (le64 w) data_start (w - data_start) (inl (omega arith))))

-- Bytes copied in behind the data.
module _ (l : Log) (g : IsLog l) (buf : List ℕ) (fits : write_offset l + length buf ≤ l.size) where
  abbrev pub filled : Log
  filled = copy_in (write_offset l) buf l

  field_kept : (o : ℕ) → o + 8 ≤ data_start → get64 filled.mem o ≡ get64 l.mem o
  field_kept o le = get64-store-Apart l.mem (write_offset l) buf o (inr (omega (arith, g.above)))

  pub filled-IsLog : IsLog filled
  filled-IsLog = record {
    starts = field_kept 4096 (omega arith) ∙ g.starts;
    ends = field_kept 4104 (omega arith) ∙ g.ends;
    above = rw (field_kept write_off (omega arith)) g.above;
    below = rw (field_kept write_off (omega arith)) g.below;
  }

  pub load-filled :
      load filled.mem data_start (write_offset l + length buf - data_start) ≡ contents l ++ buf
  load-filled =
      load-add filled.mem data_start (write_offset l - data_start) (length buf)
        (write_offset l + length buf - data_start) (write_offset l) (omega (arith, g.above))
        (omega (arith, g.above))
      ∙ ap (λ xs. xs ++ load filled.mem (write_offset l) (length buf)) before
      ∙ ap (λ xs. contents l ++ xs) (load-store l.mem (write_offset l) buf)
    where
      before : load filled.mem data_start (write_offset l - data_start) ≡ contents l
      before = load-Agree filled.mem l.mem data_start (write_offset l - data_start) (
          store-Apart l.mem (write_offset l) buf data_start (write_offset l - data_start)
            (inr (omega (arith, g.above))))

  abbrev pub appended : Log
  appended = copy_in write_off (le64 (write_offset l + length buf)) filled

  above : data_start ≤ write_offset l + length buf
  above = omega (arith, g.above)

  pub appended-IsLog : IsLog appended
  appended-IsLog = moved-IsLog filled filled-IsLog (write_offset l + length buf) above fits

  pub contents-appended : contents appended ≡ contents l ++ buf
  contents-appended =
      contents-moved filled filled-IsLog (write_offset l + length buf) above fits ∙ load-filled

push_full :
    (cap : ℕ) (buf xs : List ℕ)
    → (cap ≤ length xs) ⊎ (cap < length xs + length buf)
    → push cap buf xs ≡ (err enospc, xs)
push_full cap buf xs h = ground arith

push_room :
    (cap : ℕ) (buf xs : List ℕ)
    → length xs < cap
    → length xs + length buf ≤ cap
    → push cap buf xs ≡ (ok tt, xs ++ buf)
push_room cap buf xs lt le = ground arith

pub length-contents : (l : Log) → length (contents l) ≡ write_offset l - data_start
length-contents l = length-load l.mem data_start (write_offset l - data_start)

pub room_cases : (size w n : ℕ) → ((size ≤ w) ⊎ (size < w + n)) ⊎ ((w < size) × (w + n ≤ size))
room_cases size w n = grind arith

module _ (l : Log) (g : IsLog l) (buf : List ℕ) where
  module _ (writable : l.rdonly ≡ false) where
    pub append_room :
        write_offset l < l.size
        → (fits : write_offset l + length buf ≤ l.size)
        → append buf l ≡ (ok tt, appended l g buf fits)
    unfolding append persist
    append_room lt fits = ground (arith, g.ends, get64-lt l.mem 4104)

    pub append_full :
        (l.size ≤ write_offset l) ⊎ (l.size < write_offset l + length buf)
        → append buf l ≡ (err enospc, l)
    unfolding append
    append_full h = ground (arith, g.ends)

    -- Appending to a writable, well-formed log leaves a well-formed one, and is what appending is
    -- on the list of bytes: the buffer is added whole, or there is no room for it, or the log is
    -- full, and then nothing is added and the error is ENOSPC.
    pub append-push :
        let (r, l') = append buf l in
        IsLog l' × ((r, contents l') ≡ push (capacity l) buf (contents l))
    append-push = elim (room_cases l.size (write_offset l) (length buf)) [
      | inl full ↦ rw (append_full full) (
        g,
        sym (push_full (capacity l) buf (contents l) (omega (arith, length-contents l, g.above))),
      )
      | inr (lt, fits) ↦ rw (append_room lt fits) (
        appended-IsLog l g buf fits,
        ap (λ xs. (ok tt, xs)) (contents-appended l g buf fits)
            ∙ sym (
                push_room (capacity l) buf (contents l) (omega (arith, length-contents l, g.above))
                  (omega (arith, length-contents l, g.above))),
      )
    ]
