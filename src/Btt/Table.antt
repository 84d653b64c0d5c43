-- ===== src/Btt/Table.antt =====
-- The entry points of src/libpmemblk/btt.c that do not write: the table of all arenas, the lookup
-- of an arena, and btt_read.
use nvml.Base.{ℕ, suc, ◌-◌, List, [], ◌∷◌, take, set, ltb, not, Option, none, some, if◌then◌else◌}
use nvml.Base.Outcome.{Run, pure, fail, hang, einval}
use nvml.Namespace.{Ns, u32}
use nvml.Btt.{Btt, Arena, Dev}
use nvml.Btt.FreeList.{invalid_lba}
use nvml.Btt.Block.{zero_block, read_block}

-- `struct btt` with its namespace.
pub record Table : Type 0 where
  pub ns : Ns
  pub btt : Btt

-- The arena's index, the arena, and the LBA in it.
abbrev pub Place : Type 0
Place = ℕ × Arena × ℕ

abbrev pub after_first : Option Place → Option Place
after_first none = none
after_first (some (k, a, premap)) = some (suc k, a, premap)

-- The loop of lba_to_arena_lba. `none`: no arena has the LBA, and the assertion fails.
unfoldable pub find_arena : List Arena → ℕ → Option Place
find_arena [] lba = none
find_arena (a ∷ arenas) lba =
    let rest = find_arena arenas (lba - a.external_nlba) in
    if ltb lba a.external_nlba then some (0, a, u32 lba) else after_first rest

unfoldable pub lba_to_arena_lba : Btt → ℕ → Option Place
lba_to_arena_lba b lba = find_arena (take b.narena b.arenas) lba

-- A call in one arena of the table.
abbrev pub in_arena {ℓ} : {A : Type ℓ} → ℕ → Arena → Run Dev A → Run Table A
in_arena k a run t =
    let (r, d) = run (record { ns = t.ns; arena = a }) in
    (r, record { ns = d.ns; btt = record (t.btt) { arenas = set t.btt.arenas k d.arena } })

-- What follows the lookup. A failed assertion does not return.
abbrev pub at_place {ℓ} : {A : Type ℓ} → (ℕ → Run Dev A) → Option Place → Run Table A
at_place run none t = (hang, t)
at_place run (some (k, a, premap)) t = in_arena k a (run premap) t

unfoldable pub btt_read : ℕ → ℕ → Run Table (List ℕ)
btt_read lane lba t =
    if invalid_lba t.btt lba
    then fail einval t
    else if not t.btt.laidout
    then pure (zero_block t.btt) t
    else at_place (read_block t.btt lane) (lba_to_arena_lba t.btt lba) t

abbrev pub btt_nlane : Btt → ℕ
btt_nlane b = b.nlane

abbrev pub btt_nlba : Btt → ℕ
btt_nlba b = b.nlba
