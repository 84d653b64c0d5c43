-- ===== src/Log/Crash.antt =====
-- What a power failure during pmemlog_append of src/libpmemlog/log.c leaves on the media. Bytes that
-- are copied reach the media in any order until pmem_persist or pmem_msync returns; the store of the
-- write offset, 8 bytes at a multiple of 8, is there or is not.
use nvml.Base.{
  ℕ, ◌+◌, ◌-◌, ◌≤◌, ◌<◌, ◌≡◌, ◌⊎◌, refl, subst, ◌∙◌, inl, inr, List, [], ◌∷◌, ◌++◌, length, false,
  ltb, leb, if◌then◌else◌, arith,
}
use nvml.Base.Memory.{Mem, store, get64, le64, Outside, get32-Agree, load-Agree, store-Outside}
use nvml.Base.Words64.{get64-lt}
use nvml.Base.Outcome.{ok}
use nvml.Namespace.{u64}
use nvml.Log.{Log, write_offset, end_offset, write_off, data_start, append}
use nvml.Log.View.{IsLog, contents}
use nvml.Log.Append.{appended, appended-IsLog, contents-appended, append_room, filled, room_cases}

-- The steps of a call: a copy, waiting until it is persistent, and the store of a 64-bit field.
pub data Event : Type 0 where
  copied : ℕ → List ℕ → Event
  persisted : Event
  stored_field : ℕ → ℕ → Event

-- The steps of pmemlog_append and pmemlog_persist.
unfoldable pub append_events : List ℕ → Log → List Event
append_events buf l =
    let w = write_offset l in
    let e = end_offset l in
    if l.rdonly
    then []
    else if leb e w
    then []
    else if ltb (e - w) (length buf)
    then []
    else copied w buf ∷ persisted ∷ stored_field write_off (u64 (w + length buf)) ∷ persisted ∷ []

-- What the steps before the next wait may have brought to the media by then: any part of a copy, and
-- each field or not. A step that comes later in the program may be there before an earlier one.
pub data Loose : Mem → List Event → Mem → Type 0 where
  stops : {m : Mem} → Loose m [] m
  waits : {m : Mem} {es : List Event} → Loose m (persisted ∷ es) m
  torn :
      {m k m' : Mem} {off : ℕ} {bs : List ℕ} {es : List Event}
      → ((x : ℕ) → Outside off (length bs) x → k x ≡ m x)
      → Loose k es m'
      → Loose m (copied off bs ∷ es) m'
  there :
      {m m' : Mem} {off v : ℕ} {es : List Event}
      → Loose (store m off (le64 v)) es m'
      → Loose m (stored_field off v ∷ es) m'
  missing :
      {m m' : Mem} {off v : ℕ} {es : List Event}
      → Loose m es m'
      → Loose m (stored_field off v ∷ es) m'

-- The media once the next wait is over, and the steps behind it.
unfoldable pub settled : Mem → List Event → Mem
settled m [] = m
settled m (copied off bs ∷ es) = settled (store m off bs) es
settled m (stored_field off v ∷ es) = settled (store m off (le64 v)) es
settled m (persisted ∷ es) = m

unfoldable pub later : List Event → List Event
later [] = []
later (copied off bs ∷ es) = later es
later (stored_field off v ∷ es) = later es
later (persisted ∷ es) = es

-- What a power failure leaves, before the steps are over or behind them.
pub data Leaves : Mem → List Event → Mem → Type 0 where
  loose : {m m' : Mem} {es : List Event} → Loose m es m' → Leaves m es m'
  passed :
      {m m' : Mem} {e : Event} {es : List Event}
      → Leaves (settled m (e ∷ es)) (later (e ∷ es)) m'
      → Leaves m (e ∷ es) m'

-- Bytes behind the write offset do not count.
module _ (l : Log) (g : IsLog l) (n : ℕ) (m : Mem)
    (same : (x : ℕ) → Outside (write_offset l) n x → m x ≡ l.mem x) where
  abbrev left : Log
  left = record l { mem = m }

  field_same : (o : ℕ) → o + 8 ≤ data_start → get64 m o ≡ get64 l.mem o
  field_same o le = omega (
    arith,
    get32-Agree m l.mem o (λ x lo hi. same x (inl (omega (arith, g.above)))),
    get32-Agree m l.mem (o + 4) (λ x lo hi. same x (inl (omega (arith, g.above)))),
  )

  left-IsLog : IsLog left
  left-IsLog = record {
    starts = field_same 4096 (omega arith) ∙ g.starts;
    ends = field_same 4104 (omega arith) ∙ g.ends;
    above = rw (field_same 4112 (omega arith)) g.above;
    below = rw (field_same 4112 (omega arith)) g.below;
  }

  contents-left : contents left ≡ contents l
  contents-left = rw (field_same 4112 (omega arith)) (
      load-Agree m l.mem data_start (write_offset l - data_start)
        (λ x lo hi. same x (inl (omega (arith, g.above)))))

-- What is left of a call: a well-formed log of the bytes before it or of those after it.
abbrev pub IsOldOrNew : Log → List ℕ → Mem → Type 0
IsOldOrNew l buf m =
    IsLog (record l { mem = m })
    × ((contents (record l { mem = m }) ≡ contents l)
        ⊎ ((append buf l ≡ (ok tt, record l { mem = m }))
            × (contents (record l { mem = m }) ≡ contents l ++ buf)))

module _ (l : Log) (g : IsLog l) (writable : l.rdonly ≡ false) (buf : List ℕ) where
  no_events :
      (l.size ≤ write_offset l) ⊎ (l.size < write_offset l + length buf) → append_events buf l ≡ []
  unfolding append_events
  no_events h = ground (arith, g.ends)

  unchanged : IsOldOrNew l buf l.mem
  unchanged = (g, inl refl)

  left_empty : (m : Mem) → Leaves l.mem [] m → IsOldOrNew l buf m
  left_empty m (loose stops) = unchanged

  module _ (room : write_offset l < l.size) (fits : write_offset l + length buf ≤ l.size) where
    abbrev steps : List Event
    steps =
        copied (write_offset l) buf
        ∷ persisted
        ∷ stored_field write_off (write_offset l + length buf)
        ∷ persisted
        ∷ []

    all_events : append_events buf l ≡ steps
    unfolding append_events
    all_events = ground (arith, g.ends, get64-lt l.mem 4104)

    old_left :
        (m : Mem)
        → ((x : ℕ) → Outside (write_offset l) (length buf) x → m x ≡ l.mem x)
        → IsOldOrNew l buf m
    old_left m same =
        (left-IsLog l g (length buf) m same, inl (contents-left l g (length buf) m same))

    new_left : IsOldOrNew l buf (appended l g buf fits).mem
    new_left = (
      appended-IsLog l g buf fits,
      inr (append_room l g buf writable room fits, contents-appended l g buf fits),
    )

    -- Once the bytes are persistent.
    field_left : (m : Mem) → Leaves (filled l g buf fits).mem (later steps) m → IsOldOrNew l buf m
    unfolding later settled
    field_left m (loose (there waits)) = new_left
    field_left m (loose (missing waits)) =
        old_left (filled l g buf fits).mem (λ x o. store-Outside l.mem (write_offset l) buf x o)
    field_left m (passed (loose stops)) = new_left

    left_steps : (m : Mem) → Leaves l.mem steps m → IsOldOrNew l buf m
    unfolding later settled
    left_steps m (loose (torn same waits)) = old_left m same
    left_steps m (passed rest) = field_left m rest

  -- Whatever a power failure during an append to a writable, well-formed log leaves, is a well-formed
  -- log; its bytes are those before the call or, if the call is one that succeeds, those with the
  -- whole buffer behind them.
  pub append-IsOldOrNew : (m : Mem) → Leaves l.mem (append_events buf l) m → IsOldOrNew l buf m
  append-IsOldOrNew m left = elim (room_cases l.size (write_offset l) (length buf)) [
    | inl full ↦ left_empty m (subst (λ es. Leaves l.mem es m) (no_events full) left)
    | inr (room, fits) ↦
        left_steps room fits m (subst (λ es. Leaves l.mem es m) (all_events room fits) left)
  ]
