-- ===== src/Log/Tests.antt =====
-- A log with room for 16 bytes.
use nvml.Base.{
  ◌⊎◌, length, ℕ, ◌<◌, ◌≡◌, refl, List, [], ◌∷◌, ◌++◌, Bool, true, false, replicate, arith,
}
use nvml.Base.Memory.{Mem, load, store, get32, store-Outside}
use nvml.Header.Tests.{blank_file, blank-zeroed}
use nvml.Log.Open.{map_log}
use nvml.Log.Create.{open-create}
use nvml.Log.Crash.{Leaves, loose, torn, waits, append_events, IsOldOrNew, append-IsOldOrNew}
use nvml.Base.Outcome.{ok, err, einval, enospc}
use mathlib.Core.List.{flatten}
use nvml.Log.{Log, append, appendv, persist, rewind, tell, nbyte, format}
use nvml.Log.Walk.{walk, walk_from}
use nvml.Log.View.{IsLog, contents, capacity, push}
use nvml.Log.Append.{append-push}
use nvml.Log.Gather.{appendv-flatten}
use nvml.Log.Ends.{rewind-contents, tell-contents}
use nvml.Log.File.{IsLogFile, check_log_file, check_log_file-IsLogFile}
use nvml.Log.Chunks.{IsChunked, visit, walk-contents}
use nvml.Log.Validate.{format-IsLog}

abbrev blank : Log
blank = record { mem = λ x. 7; size = 8208; rdonly = false }

abbrev fresh : Log
fresh = format 8208 blank

abbrev text : List ℕ
text = 1 ∷ 2 ∷ 3 ∷ 4 ∷ 5 ∷ []

-- The callback keeps the pieces it is shown.
abbrev keep : List ℕ → List (List ℕ) → Bool × List (List ℕ)
keep c cs = (true, cs ++ (c ∷ []))

append_runs :
    let (r, l') = append text fresh in
    (r ≡ ok tt)
    × (contents l' ≡ text)
    × ((append (text ++ (text ++ text)) l').0 ≡ err enospc)
    × (walk keep 2 l' [] ≡ ok ((1 ∷ 2 ∷ []) ∷ (3 ∷ 4 ∷ []) ∷ (5 ∷ []) ∷ []))
unfolding append persist format load store get32 walk walk_from
append_runs = (refl, refl, refl, refl)

fresh-IsLog : IsLog fresh
fresh-IsLog = (format-IsLog blank (omega arith) (omega arith)).0

append-push_example :
    let (r, l') = append text fresh in
    IsLog l' × ((r, contents l') ≡ push (capacity fresh) text (contents fresh))
unfolding format
append-push_example = append-push fresh fresh-IsLog text refl

appendv-flatten_example :
    appendv (text ∷ [] ∷ text ∷ []) fresh ≡ append (flatten (text ∷ [] ∷ text ∷ [])) fresh
unfolding flatten
appendv-flatten_example = appendv-flatten (text ∷ [] ∷ text ∷ []) fresh fresh-IsLog (omega arith)

rewind-contents_example :
    let (r, l') = rewind fresh in
    (r ≡ ok tt) × IsLog l' × (contents l' ≡ []) × (capacity l' ≡ capacity fresh)
unfolding format
rewind-contents_example = rewind-contents fresh fresh-IsLog refl

walk-contents_example :
    (walk keep 0 fresh [] ≡ ok (keep (contents fresh) []).1)
    × (0 < 3
        → (cs : List (List ℕ)) × (flatten cs ≡ contents fresh)
          × IsChunked 3 cs
          × (walk keep 3 fresh [] ≡ ok (visit keep cs [])))
unfolding format
walk-contents_example = walk-contents keep fresh 3 [] fresh-IsLog (omega (arith, fresh-IsLog.below))

-- The first byte of an append is there.
abbrev one_byte : Mem
one_byte = store fresh.mem 8192 (1 ∷ [])

one_byte_left : Leaves fresh.mem (append_events text fresh) one_byte
unfolding append_events format get32 store
one_byte_left = loose (torn (λ x o. store-Outside fresh.mem 8192 (1 ∷ []) x (omega arith)) waits)

append-IsOldOrNew_example : IsOldOrNew fresh text one_byte
unfolding format
append-IsOldOrNew_example = append-IsOldOrNew fresh fresh-IsLog refl text one_byte one_byte_left

open-create_example :
    let (r, l) = map_log (replicate 16 7) 12 16384 false true blank_file in
    (r ≡ ok tt)
    × (map_log (replicate 16 7) 12 16384 true false l.mem ≡ (ok tt, record l { rdonly = true }))
    × IsLog (record l { rdonly = true })
    × (contents (record l { rdonly = true }) ≡ [])
open-create_example =
    open-create (replicate 16 7) 12 16384 true blank_file refl blank-zeroed (omega arith)
      (omega arith)

-- The pool that was created, in a file of 2 MiB.
abbrev made : Mem
made = (map_log (replicate 16 7) 12 2097152 false true blank_file).1.mem

check_log_file-IsLogFile_example :
    ((check_log_file 2097152 made ≡ ok true) × IsLogFile 2097152 made)
    ⊎ ((check_log_file 2097152 made ≡ err einval) × (¬ IsLogFile 2097152 made))
check_log_file-IsLogFile_example = check_log_file-IsLogFile 2097152 made

tell-contents_example : (tell fresh ≡ length (contents fresh)) × (nbyte fresh ≡ capacity fresh)
tell-contents_example = tell-contents fresh fresh-IsLog
