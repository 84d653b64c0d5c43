-- ===== src/Heap/Arena.antt =====
-- The choice of an arena in src/libpmemobj/pool.c. Of `struct arena` the number of threads that use
-- it is kept; a pool has ten places for arenas, in which `none` is NULL. The thread's variable
-- arena_id is `none` at -1. The mutex of the pool can be locked, and an arena allocated.
use nvml.Base.{
  ℕ, suc, ◌+◌, ◌≡◌, ◌⊎◌, refl, ap, ◌∙◌, inl, inr, List, [], ◌∷◌, Bool, false, Option, none, some,
  ltb, set, get_elem?, if◌then◌else◌, arith,
}

abbrev pub Arenas : Type 0
Arenas = List (Option ℕ)

-- arenas[i]->associated_threads < min_arena_threads, which starts at ~0, that is at -1.
abbrev pub fewer : ℕ → Option ℕ → Bool
fewer threads none = false
fewer threads (some least) = ltb threads least

-- The loop of select_arena_id from the place `i` on.
unfoldable pub select_from : ℕ → Option ℕ → Option ℕ → Arenas → Option ℕ
select_from i id least [] = id
select_from i id least (none ∷ arenas) = some i
select_from i id least (some threads ∷ arenas) =
    let take = fewer threads least in
    select_from (i + 1) (if take then some i else id) (if take then some threads else least) arenas

-- select_arena_id
unfoldable pub select_arena_id : Arenas → Option ℕ
select_arena_id arenas = select_from 0 none none arenas

-- One more thread for an arena, which is new if there is none.
abbrev pub joined : Option ℕ → ℕ
joined none = 1
joined (some threads) = suc threads

-- The end of select_thread_arena_slow: the arena, and the arenas. `none`: arenas[-1] is read, or a
-- place that the pool does not have.
unfoldable pub join_arena : Option ℕ → Arenas → Option (ℕ × Arenas)
join_arena none arenas = none
join_arena (some id) arenas = elim (get_elem? arenas id) [
  | none ↦ none
  | some threads ↦ some (id, set arenas id (some (joined threads)))
]

-- select_thread_arena_slow
unfoldable pub select_thread_arena_slow : Option ℕ → Arenas → Option (ℕ × Arenas)
select_thread_arena_slow none arenas = join_arena (select_arena_id arenas) arenas
select_thread_arena_slow (some id) arenas = join_arena (some id) arenas

-- pool_select_arena: a thread that has an arena which is there keeps it.
unfoldable pub pool_select_arena : Option ℕ → Arenas → Option (ℕ × Arenas)
pool_select_arena none arenas = select_thread_arena_slow none arenas
pool_select_arena (some id) arenas = elim (get_elem? arenas id) [
  | some (some threads) ↦ some (id, arenas)
  | _ ↦ select_thread_arena_slow (some id) arenas
]

-- The first place that is empty, which is `i` or comes behind it.
pub data FirstEmpty : Arenas → ℕ → Type 0 where
  at_head : {rest : Arenas} → FirstEmpty (none ∷ rest) 0
  behind :
      {threads i : ℕ} {rest : Arenas} → FirstEmpty rest i → FirstEmpty (some threads ∷ rest) (suc i)

-- Every place has an arena.
abbrev pub AreTaken : Arenas → Type 0
AreTaken [] = Unit {0}
AreTaken (none ∷ arenas) = ⊥
AreTaken (some threads ∷ arenas) = AreTaken arenas

taken_or_empty : (arenas : Arenas) → AreTaken arenas ⊎ ((i : ℕ) × FirstEmpty arenas i)
taken_or_empty [] = inl tt
taken_or_empty (none ∷ arenas) = inr (0, at_head)
taken_or_empty (some threads ∷ arenas) = elim (taken_or_empty arenas) [
  | inl all ↦ inl all
  | inr (i, e) ↦ inr (suc i, behind e)
]

-- No number of threads is less than the -1 that the loop starts with.
select_from-AreTaken :
    (i : ℕ) (id : Option ℕ) (arenas : Arenas) → AreTaken arenas → select_from i id none arenas ≡ id
unfolding select_from
select_from-AreTaken i id [] h = refl
select_from-AreTaken i id (none ∷ arenas) h = absurd h
select_from-AreTaken i id (some threads ∷ arenas) h = select_from-AreTaken (i + 1) id arenas h

select_from-FirstEmpty :
    (i j : ℕ) (id : Option ℕ) (arenas : Arenas)
    → FirstEmpty arenas j
    → select_from i id none arenas ≡ some (i + j)
unfolding select_from
select_from-FirstEmpty i j id arenas at_head = ap some (omega arith)
select_from-FirstEmpty i j id arenas (behind {i = k} {rest} e) =
    select_from-FirstEmpty (i + 1) k id rest e ∙ ap some (omega arith)

get_elem?-FirstEmpty :
    (j : ℕ) (arenas : Arenas) → FirstEmpty arenas j → get_elem? arenas j ≡ some none
get_elem?-FirstEmpty j arenas at_head = refl
get_elem?-FirstEmpty j arenas (behind {i = k} {rest} e) = get_elem?-FirstEmpty k rest e

-- A thread that has no arena is given a new one in the first empty place of the pool. If there is no
-- empty place, it is given none that is there: arenas[-1] is read.
pub pool_select_arena-FirstEmpty :
    (arenas : Arenas)
    → (AreTaken arenas × (pool_select_arena none arenas ≡ none))
      ⊎ ((i : ℕ) × FirstEmpty arenas i
          × (pool_select_arena none arenas ≡ some (i, set arenas i (some 1))))
unfolding pool_select_arena select_thread_arena_slow select_arena_id join_arena
pool_select_arena-FirstEmpty arenas = elim (taken_or_empty arenas) [
  | inl all ↦ inl (all, ap (λ id. join_arena id arenas) (select_from-AreTaken 0 none arenas all))
  | inr (i, e) ↦ inr (
    i,
    e,
    ap (λ id. join_arena id arenas)
          (select_from-FirstEmpty 0 i none arenas e ∙ ap some (omega arith))
        ∙ ap (found i) (get_elem?-FirstEmpty i arenas e),
  )
]
  where
    found : ℕ → Option (Option ℕ) → Option (ℕ × Arenas)
    found i o = elim o [
      | none ↦ none
      | some threads ↦ some (i, set arenas i (some (joined threads)))
    ]
