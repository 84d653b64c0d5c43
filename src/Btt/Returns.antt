-- ===== src/Btt/Returns.antt =====
-- Opening a namespace and writing its layout come to an end: the loops of read_flogs, read_arenas,
-- write_layout and read_layout of src/libpmemblk/btt.c.
use nvml.Base.{
  ℕ, zero, suc, ◌+◌, ◌-◌, ◌/◌, ◌<◌, ◌≤◌, ◌≡◌, refl, List, Bool, true, false, Option, some, none,
  ltb, if◌then◌else◌, arith,
}
use nvml.Base.Outcome.{Run, Result, ok, err, hang, pure, continue, ◌>>=◌}
use nvml.Namespace.{Ns, nsread, nswrite, nszero}
use nvml.Btt.{Btt, Flog, flog_pair_align, info_size}
use nvml.Btt.Geometry.{Plan, plan_arena, first_size, btt_min_size, btt_max_arena}
use native.Mathlib.Decide.{dec_lt}
use nvml.Btt.Layout.{
  read_arena, load_arenas, read_arenas, write_flogs, write_arena, layout_rounds, write_layout,
  is_usable_info, next_arena, Found, find_layout, read_layout, btt_init,
}
use nvml.Btt.InfoBlock.{Info, read_info}
use nvml.Btt.Device.{dev_read, dev_write}
use nvml.Btt.FreeList.{complete_flog, use_pair, read_flog_pair, read_pairs, read_flogs}

-- The call returned.
abbrev pub returned {ℓ} : {A : Type ℓ} → Result A → Bool
returned (ok a) = true
returned (err e) = true
returned hang = false

-- A call returns, whatever the state.
abbrev pub IsReturning : {S A : Type 0} → Run S A → Type 0
IsReturning {S = S} m = (s : S) → returned (m s).0 ≡ true

continue-returned :
    {S A B : Type 0} (r : Result A) (s : S) (f : A → Run S B)
    → returned r ≡ true
    → ((a : A) → IsReturning (f a))
    → returned (continue r s f).0 ≡ true
continue-returned (ok a) s f e h = h a s
continue-returned (err x) s f e h = refl
continue-returned hang s f e h = e

pub bind-IsReturning :
    {S A B : Type 0} (m : Run S A) (f : A → Run S B)
    → IsReturning m
    → ((a : A) → IsReturning (f a))
    → IsReturning (m >>= f)
bind-IsReturning m f h k s = continue-returned (m s).0 (m s).1 f (h s) k

pub if-IsReturning :
    {S A : Type 0} (c : Bool) (m n : Run S A)
    → IsReturning m
    → IsReturning n
    → IsReturning (if c then m else n)
if-IsReturning true m n h k = h
if-IsReturning false m n h k = k

pub nsread-IsReturning : (count off : ℕ) → IsReturning (nsread count off)
unfolding nsread
nsread-IsReturning count off ns = ground arith

pub nswrite-IsReturning : (buf : List ℕ) (off : ℕ) → IsReturning (nswrite buf off)
unfolding nswrite
nswrite-IsReturning buf off ns = ground arith

pub nszero-IsReturning : (count off : ℕ) → IsReturning (nszero count off)
unfolding nszero
nszero-IsReturning count off ns = ground arith

dev_read-IsReturning : (count off : ℕ) → IsReturning (dev_read count off)
unfolding dev_read
dev_read-IsReturning count off d = nsread-IsReturning count off d.ns

dev_write-IsReturning : (buf : List ℕ) (off : ℕ) → IsReturning (dev_write buf off)
unfolding dev_write
dev_write-IsReturning buf off d = nswrite-IsReturning buf off d.ns

complete_flog-IsReturning : (current : Flog) → IsReturning (complete_flog current)
unfolding complete_flog
complete_flog-IsReturning current d = grind (arith, dev_read-IsReturning, dev_write-IsReturning)

use_pair-IsReturning : (off : ℕ) (found : Option (Flog × ℕ)) → IsReturning (use_pair off found)
unfolding use_pair
use_pair-IsReturning off none d = refl
use_pair-IsReturning off (some (current, next)) d = grind (arith, complete_flog-IsReturning)

read_flog_pair-IsReturning : (b : Btt) (lane off : ℕ) → IsReturning (read_flog_pair b lane off)
unfolding read_flog_pair
read_flog_pair-IsReturning b lane off d = grind (arith, dev_read-IsReturning, use_pair-IsReturning)

read_pairs-IsReturning : (b : Btt) (lane off left : ℕ) → IsReturning (read_pairs b lane off left)
unfolding read_pairs
read_pairs-IsReturning b lane off zero d = refl
read_pairs-IsReturning b lane off (suc left) d =
    grind (
      arith,
      read_flog_pair-IsReturning,
      read_pairs-IsReturning b lane (off + flog_pair_align) left,
    )

read_flogs-IsReturning : (b : Btt) (lane : ℕ) → IsReturning (read_flogs b lane)
unfolding read_flogs
read_flogs-IsReturning b lane d = grind (arith, read_pairs-IsReturning)

read_arena-IsReturning : (b : Btt) (lane off : ℕ) → IsReturning (read_arena b lane off)
unfolding read_arena
read_arena-IsReturning b lane off ns = grind (arith, nsread-IsReturning, read_flogs-IsReturning)

load_arenas-IsReturning : (b : Btt) (lane n off : ℕ) → IsReturning (load_arenas b lane n off)
unfolding load_arenas
load_arenas-IsReturning b lane zero off ns = refl
load_arenas-IsReturning b lane (suc n) off ns =
    grind (arith, read_arena-IsReturning, load_arenas-IsReturning b lane n)

read_arenas-IsReturning : (lane n : ℕ) → IsReturning (read_arenas lane n)
unfolding read_arenas
read_arenas-IsReturning lane n t = grind (arith, load_arenas-IsReturning)

write_flogs-IsReturning : (left off free : ℕ) → IsReturning (write_flogs left off free)
unfolding write_flogs
write_flogs-IsReturning zero off free ns = refl
write_flogs-IsReturning (suc left) off free ns =
    grind (arith, nswrite-IsReturning, write_flogs-IsReturning left)

write_arena-IsReturning : (b : Btt) (p : Plan) (off : ℕ) → IsReturning (write_arena b p off)
unfolding write_arena
write_arena-IsReturning b p off ns =
    grind (arith, nswrite-IsReturning, nszero-IsReturning, write_flogs-IsReturning)

plan_size :
    (nfree size rawsize : ℕ) (p : Plan)
    → plan_arena nfree size rawsize ≡ some p
    → p.arena_rawsize ≡ first_size rawsize
unfolding plan_arena
plan_size nfree size rawsize p e = ground arith

-- A round, if what follows it returns.
layout_round :
    (fuel : ℕ) (b : Btt) (write : Bool) (size rawsize off total : ℕ) (ns : Ns) (o : Option Plan)
    → plan_arena b.nfree size rawsize ≡ o
    → ((p : Plan)
        → o ≡ some p
        → btt_min_size ≤ rawsize
        → (off' total' : ℕ)
        → IsReturning (layout_rounds fuel b write size (rawsize - p.arena_rawsize) off' total'))
    → returned (layout_rounds (suc fuel) b write size rawsize off total ns).0 ≡ true
unfolding layout_rounds
layout_round fuel b write size rawsize off total ns none e rest = ground arith
layout_round fuel b write size rawsize off total ns (some p) e rest =
    elim (dec_lt rawsize btt_min_size) [
      | yes lt ↦ ground arith
      | no ge ↦ grind (arith, e, stores, rest p refl (omega arith))
    ]
  where
    stores : IsReturning (if write then write_arena b p off else pure tt)
    stores =
        if-IsReturning write (write_arena b p off) (pure tt) (write_arena-IsReturning b p off)
          (λ s. refl)

-- Each round takes an arena of at least BTT_MIN_SIZE bytes.
layout_rounds_returned :
    (fuel : ℕ) (b : Btt) (write : Bool) (size rawsize off total : ℕ)
    → rawsize / btt_min_size < fuel
    → IsReturning (layout_rounds fuel b write size rawsize off total)
layout_rounds_returned zero b write size rawsize off total h ns = absurd (omega arith)
layout_rounds_returned (suc fuel) b write size rawsize off total h ns =
    layout_round fuel b write size rawsize off total ns (plan_arena b.nfree size rawsize) refl
      (λ p e ge off' total'.
        layout_rounds_returned fuel b write size (rawsize - p.arena_rawsize) off' total'
          (omega (arith, plan_size b.nfree size rawsize p e)))

write_layout-IsReturning : (lane : ℕ) (write : Bool) → IsReturning (write_layout lane write)
unfolding write_layout
write_layout-IsReturning lane write t =
    grind (arith, read_arenas-IsReturning, layout_rounds_returned)

next_arena-IsReturning :
    (b : Btt) (rawsize : ℕ) (last rest : Info → Run Ns Found) (o : Option Info)
    → ((info : Info) → IsReturning (last info))
    → ((info : Info) → btt_max_arena ≤ info.nextoff → IsReturning (rest info))
    → IsReturning (next_arena b rawsize last rest o)
unfolding next_arena is_usable_info
next_arena-IsReturning b rawsize last rest none h k ns = refl
next_arena-IsReturning b rawsize last rest (some info) h k ns =
    elim (dec_lt info.nextoff btt_max_arena) [
      | yes small ↦ ground (arith, h info ns)
      | no big ↦ ground (arith, h info ns, k info (omega arith) ns)
    ]

-- A round, if what follows it returns.
find_round :
    (fuel : ℕ) (b : Btt) (narena rawsize off total smallest : ℕ) (ns : Ns)
    → ((next : ℕ)
        → btt_max_arena ≤ next
        → btt_min_size ≤ rawsize
        → (narena' off' total' smallest' : ℕ)
        → IsReturning (find_layout fuel b narena' (rawsize - next) off' total' smallest'))
    → returned (find_layout (suc fuel) b narena rawsize off total smallest ns).0 ≡ true
unfolding find_layout
find_round fuel b narena rawsize off total smallest ns rest = elim (dec_lt rawsize btt_min_size) [
  | yes lt ↦ ground arith
  | no ge ↦
      let skip : ltb rawsize btt_min_size ≡ false = ground arith in
      rw skip (
        continue-returned _ _ _ (nsread-IsReturning info_size off ns) (λ bytes.
          next_arena-IsReturning b rawsize _ _ (read_info b bytes) (λ info s. refl)
            (λ info big. rest info.nextoff big (omega arith) (narena + 1) _ _ _)))
]

-- Each round but the last passes BTT_MAX_ARENA bytes.
find_layout_returned :
    (fuel : ℕ) (b : Btt) (narena rawsize off total smallest : ℕ)
    → rawsize / btt_min_size < fuel
    → IsReturning (find_layout fuel b narena rawsize off total smallest)
find_layout_returned zero b narena rawsize off total smallest h ns = absurd (omega arith)
find_layout_returned (suc fuel) b narena rawsize off total smallest h ns =
    find_round fuel b narena rawsize off total smallest ns
      (λ next big ge narena' off' total' smallest'.
        find_layout_returned fuel b narena' (rawsize - next) off' total' smallest' (omega arith))

read_layout-IsReturning : (lane : ℕ) → IsReturning (read_layout lane)
unfolding read_layout
read_layout-IsReturning lane t =
    grind (arith, find_layout_returned, write_layout-IsReturning, read_arenas-IsReturning)

-- Opening a BTT on any namespace ends, with the BTT or with an error.
pub btt_init_returns :
    (rawsize lbasize : ℕ) (uuid : List ℕ) (maxlane : ℕ) (ns : Ns)
    → returned (btt_init rawsize lbasize uuid maxlane ns).0 ≡ true
unfolding btt_init
btt_init_returns rawsize lbasize uuid maxlane ns = grind (arith, read_layout-IsReturning)
