-- ===== src/Heap/Settle.antt =====
-- What recovery makes of the pools that a power failure may leave: src/libpmemobj's
-- recover_info_slot at each point of an allocation and of a release.
use native.Mathlib.Decide.{ℕ_discrete}
use nvml.Heap.Crash.{mix}
use nvml.Base.{
  not, ℕ, ◌<◌, ◌^◌, ◌≡◌, ◌≢◌, ◌⊎◌, refl, sym, ap, subst, ◌∙◌, inl, inr, Bool, true, false, if_true,
  if_false, ◌==◌, ◌||◌, if◌then◌else◌, arith,
}
use nvml.Heap.{InfoSlot, BackendPool, Heap, empty_slot, malloc, realloc, free, header, persist}
use nvml.Heap.Chunk.{get_chunk_by_offset}
use nvml.Heap.Backend.{
  guarded, with_used, without_used, set_chunk_flag, clear_chunk_flag, pointer, set_alloc_ptr,
}
use nvml.Heap.Recover.{
  recover_info_slot, recover_slot, recover_slot_alloc, recover_slot_realloc, recover_slot_free,
  clear_slot, revert, is_empty,
}
use nvml.Heap.View.{
  Shows, slot_stored-Shows, word_stored-Shows, header_stored-Shows, is_used-with_used,
  is_used-without_used,
}

-- The pool `p` after recovery of the slot of the arena `id`.
abbrev pub recovered : Heap → ℕ → BackendPool → BackendPool
recovered h id p = (recover_info_slot id (record h { pool = p })).pool

-- The pointer is null and the chunk is free, or it refers to the chunk, which is used; and the slot
-- is empty.
abbrev pub IsSettled : BackendPool → ℕ → ℕ → ℕ → ℕ → ℕ → ℕ → BackendPool → Type 0
IsSettled start id ptr z c d off p =
    Shows start id ptr z c d empty_slot 0 false p ⊎ Shows start id ptr z c d empty_slot off true p

-- Recovery after a failure leaves such a pool.
abbrev pub Recovers : Heap → BackendPool → ℕ → ℕ → ℕ → ℕ → ℕ → ℕ → BackendPool → Type 0
Recovers h start id ptr z c d off p = IsSettled start id ptr z c d off (recovered h id p)

-- The type of the slot has reached the media and its address has not: recover_slot_alloc and
-- recover_slot_free then take the word at the start of the pool for the pointer.
abbrev pub IsHalfWritten : InfoSlot → Type 0
IsHalfWritten s = (s.type ≢ 0) × (s.first ≡ 0)

-- Such a slot, where the pointer is null and the chunk is free, or the pointer refers to the chunk,
-- which is used.
abbrev pub IsHalfGuarded : BackendPool → ℕ → ℕ → ℕ → ℕ → ℕ → ℕ → BackendPool → Type 0
IsHalfGuarded start id ptr z c d off p =
    (s : InfoSlot) × IsHalfWritten s
    × (Shows start id ptr z c d s 0 false p ⊎ Shows start id ptr z c d s off true p)

-- Recovery leaves a settled pool, if the slot is not half-written.
abbrev pub Survives : Heap → BackendPool → ℕ → ℕ → ℕ → ℕ → ℕ → ℕ → BackendPool → Type 0
Survives h start id ptr z c d off p =
    IsHalfGuarded start id ptr z c d off p ⊎ Recovers h start id ptr z c d off p

-- A slot of the type `k` whose type and address are there or are not.
abbrev pub half : ℕ → ℕ → Bool → Bool → InfoSlot
half k ptr t f = record {
  type = if t then k else 0;
  reserved = 0;
  first = if f then ptr else 0;
  second = 0;
  third = 0;
}

same_zero : (b : Bool) → ◌≡◌ {A = ℕ} (if b then 0 else 0) 0
same_zero true = refl
same_zero false = refl

turned : (b : Bool) (x : ℕ) → (if b then 0 else x) ≡ (if not b then x else 0)
turned true x = refl
turned false x = refl

pub set_half :
    (k ptr : ℕ) (l m n o q : Bool)
    → mix l m n o q empty_slot (half k ptr true true) ≡ half k ptr l n
set_half k ptr l m n o q = λ i. record {
  type = if l then k else 0;
  reserved = same_zero m i;
  first = if n then ptr else 0;
  second = same_zero o i;
  third = same_zero q i;
}

pub clear_half :
    (k ptr : ℕ) (l m n o q : Bool)
    → mix l m n o q (half k ptr true true) empty_slot ≡ half k ptr (not l) (not n)
clear_half k ptr l m n o q = λ i. record {
  type = turned l k i;
  reserved = same_zero m i;
  first = turned n ptr i;
  second = same_zero o i;
  third = same_zero q i;
}

module _ (h : Heap) (start : BackendPool) (id ptr z c d off : ℕ) where
  abbrev At : InfoSlot → ℕ → Bool → BackendPool → Type 0
  At s v used p = Shows start id ptr z c d s v used p

  pub settled-Recovers :
      (p : BackendPool) → IsSettled start id ptr z c d off p → Recovers h start id ptr z c d off p
  unfolding recover_info_slot
  settled-Recovers p g = subst (IsSettled start id ptr z c d off) (sym same) g
    where
      slot_empty : p.info_slot id ≡ empty_slot
      slot_empty = elim g [ inl at ↦ at.slot | inr at ↦ at.slot ]

      same : recovered h id p ≡ p
      same =
          ap (λ t. t.pool)
            (if_true (is_empty (p.info_slot id)) (record h { pool = p }) _ (ap is_empty slot_empty))

  empty_again :
      (s : InfoSlot) (v : ℕ) (used : Bool) (g : Heap)
      → At s v used g.pool
      → At empty_slot v used (clear_slot id g).pool
  unfolding clear_slot persist
  empty_again s v used g at = slot_stored-Shows start id ptr z c d s empty_slot v used g.pool at

  -- The functions of recovery at the state `g`, whose pointer is not null.
  clear-At :
      (s : InfoSlot) (v : ℕ) (used : Bool) (g : Heap)
      → At s v used g.pool
      → At s v false (clear_chunk_flag z c g).1.pool
  unfolding clear_chunk_flag persist
  clear-At s v true g at =
      subst (λ (r : Bool × Heap). At s v false r.1.pool) (sym (if_true _ _ _ at.flag))
        (header_stored-Shows start id ptr z c d s v true false g.pool
          (without_used (header g.pool z c)) (is_used-without_used (header g.pool z c)) at)
  clear-At s v false g at =
      subst (λ (r : Bool × Heap). At s v false r.1.pool) (sym (if_false _ _ _ at.flag)) at

  set-At :
      (s : InfoSlot) (v : ℕ) (used : Bool) (g : Heap)
      → At s v used g.pool
      → At s v true (set_chunk_flag z c g).1.pool
  unfolding set_chunk_flag persist
  set-At s v false g at =
      subst (λ (r : Bool × Heap). At s v true r.1.pool) (sym (if_false _ _ _ at.flag))
        (header_stored-Shows start id ptr z c d s v false true g.pool
          (with_used (header g.pool z c)) (is_used-with_used (header g.pool z c)) at)
  set-At s v true g at =
      subst (λ (r : Bool × Heap). At s v true r.1.pool) (sym (if_true _ _ _ at.flag)) at

  by_slot :
      (p : BackendPool) (s : InfoSlot)
      → p.info_slot id ≡ s
      → is_empty s ≡ false
      → recovered h id p ≡ (recover_slot id s (record h { pool = p })).pool
  unfolding recover_info_slot
  by_slot p s e full =
      ap
        (λ (t : InfoSlot).
          (if is_empty t
            then record h { pool = p }
            else recover_slot id t (record h { pool = p })).pool)
        e
      ∙ ap (λ (t : Heap). t.pool) (if_false (is_empty s) _ _ full)

  module _ (p : BackendPool) where
    abbrev reopened : Heap
    reopened = record h { pool = p }

    -- A guarded allocation whose pointer is still null has not begun.
    pub malloc-Recovers_null :
        At (guarded malloc ptr 0 empty_slot) 0 false p → Recovers h start id ptr z c d off p
    unfolding recover_slot recover_slot_alloc
    malloc-Recovers_null at = inl (
        subst (At empty_slot 0 false) (sym to_end)
          (empty_again (guarded malloc ptr 0 empty_slot) 0 false reopened at))
      where
        to_end : recovered h id p ≡ (clear_slot id reopened).pool
        to_end =
            by_slot p (guarded malloc ptr 0 empty_slot) at.slot refl
            ∙ ap (λ g. (clear_slot id g).pool)
                (if_true (pointer p ptr == 0) reopened (revert ptr 0 reopened)
                  (ground (arith, at.word)))

    module _ (located : get_chunk_by_offset off ≡ (z, c)) (nonzero : off ≢ 0) where
      -- One whose pointer is set is undone.
      pub malloc-Recovers :
          (used : Bool)
          → At (guarded malloc ptr 0 empty_slot) off used p
          → Recovers h start id ptr z c d off p
      unfolding recover_slot recover_slot_alloc revert set_alloc_ptr persist
      malloc-Recovers used at = inl (
          subst (At empty_slot 0 false) (sym to_end) (
            empty_again (guarded malloc ptr 0 empty_slot) 0 false
              (set_alloc_ptr ptr 0 (clear_chunk_flag z c reopened).1)
              (word_stored-Shows start id ptr z c d (guarded malloc ptr 0 empty_slot) off 0 false
                (clear_chunk_flag z c reopened).1.pool (omega arith)
                (clear-At (guarded malloc ptr 0 empty_slot) off used reopened at))))
        where
          to_end :
              recovered h id p
              ≡ (clear_slot id (set_alloc_ptr ptr 0 (clear_chunk_flag z c reopened).1)).pool
          to_end =
              by_slot p (guarded malloc ptr 0 empty_slot) at.slot refl
              ∙ ap (λ g. (clear_slot id g).pool)
                  (if_false (pointer p ptr == 0) reopened (revert ptr 0 reopened)
                    (ground (arith, at.word)))
              ∙ ap
                  (λ (t : ℕ × ℕ).
                    (clear_slot id
                      (set_alloc_ptr ptr 0 (clear_chunk_flag t.0 t.1 reopened).1)).pool)
                  (ap get_chunk_by_offset at.word ∙ located)

      -- A guarded resizing whose pointer has left the old object goes back to it.
      pub realloc_undone :
          (old : ℕ) (used : Bool)
          → old ≢ 0
          → off ≢ old
          → old < 2 ^ 64
          → At (guarded realloc ptr old empty_slot) off used p
          → At empty_slot old false (recovered h id p)
      unfolding recover_slot recover_slot_realloc revert set_alloc_ptr persist
      realloc_undone old used some other lt at = subst (At empty_slot old false) (sym to_end) (
          empty_again (guarded realloc ptr old empty_slot) old false
            (set_alloc_ptr ptr old (clear_chunk_flag z c reopened).1)
            (word_stored-Shows start id ptr z c d (guarded realloc ptr old empty_slot) off old false
              (clear_chunk_flag z c reopened).1.pool lt
              (clear-At (guarded realloc ptr old empty_slot) off used reopened at)))
        where
          to_end :
              recovered h id p
              ≡ (clear_slot id (set_alloc_ptr ptr old (clear_chunk_flag z c reopened).1)).pool
          to_end =
              by_slot p (guarded realloc ptr old empty_slot) at.slot refl
              ∙ ap (λ g. (clear_slot id g).pool)
                  (if_false (pointer p ptr == 0 || (old == 0 || pointer p ptr == old)) reopened
                    (revert ptr old reopened) (ground (arith, at.word)))
              ∙ ap
                  (λ (t : ℕ × ℕ).
                    (clear_slot id
                      (set_alloc_ptr ptr old (clear_chunk_flag t.0 t.1 reopened).1)).pool)
                  (ap get_chunk_by_offset at.word ∙ located)

      -- A guarded release whose pointer is not null is undone.
      pub free-Recovers :
          (old : ℕ) (used : Bool)
          → At (guarded free ptr old empty_slot) off used p
          → Recovers h start id ptr z c d off p
      unfolding recover_slot recover_slot_free
      free-Recovers old used at = inr (
          subst (At empty_slot off true) (sym to_end) (
            empty_again (guarded free ptr old empty_slot) off true (set_chunk_flag z c reopened).1
              (set-At (guarded free ptr old empty_slot) off used reopened at)))
        where
          to_end : recovered h id p ≡ (clear_slot id (set_chunk_flag z c reopened).1).pool
          to_end =
              by_slot p (guarded free ptr old empty_slot) at.slot refl
              ∙ ap (λ g. (clear_slot id g).pool)
                  (if_false (pointer p ptr == 0) reopened _ (ground (arith, at.word)))
              ∙ ap (λ (t : ℕ × ℕ). (clear_slot id (set_chunk_flag t.0 t.1 reopened).1).pool)
                  (ap get_chunk_by_offset at.word ∙ located)

    -- One whose pointer is null is done.
    pub free-Recovers_null :
        (old : ℕ)
        → At (guarded free ptr old empty_slot) 0 false p
        → Recovers h start id ptr z c d off p
    unfolding recover_slot recover_slot_free
    free-Recovers_null old at = inl (
        subst (At empty_slot 0 false) (sym to_end)
          (empty_again (guarded free ptr old empty_slot) 0 false reopened at))
      where
        to_end : recovered h id p ≡ (clear_slot id reopened).pool
        to_end =
            by_slot p (guarded free ptr old empty_slot) at.slot refl
            ∙ ap (λ g. (clear_slot id g).pool)
                (if_true (pointer p ptr == 0) reopened _ (ground (arith, at.word)))

  -- A slot that is being set or cleared while the pointer and the chunk are settled.
  module _ (k v : ℕ) (used : Bool) (some : k ≢ 0)
      (settled : (s : InfoSlot) (p : BackendPool)
        → At s v used p
        → At s 0 false p ⊎ At s off true p)
      (full : (p : BackendPool)
        → At (half k ptr true true) v used p
        → Recovers h start id ptr z c d off p) where
    -- Without its type a slot is cleared.
    untyped-Recovers :
        (p : BackendPool)
        → ptr ≢ 0
        → At (half k ptr false true) v used p
        → Recovers h start id ptr z c d off p
    unfolding recover_slot
    untyped-Recovers p ne at =
        subst (IsSettled start id ptr z c d off)
          (sym (by_slot p (half k ptr false true) at.slot (ground arith)))
          (settled empty_slot (clear_slot id (reopened p)).pool
            (empty_again (half k ptr false true) v used (reopened p) at))

    pub half-Survives :
        (t f : Bool) (p : BackendPool)
        → At (half k ptr t f) v used p
        → Survives h start id ptr z c d off p
    half-Survives true true p at = inr (full p at)
    half-Survives true false p at =
        inl (half k ptr true false, (some, refl), settled (half k ptr true false) p at)
    half-Survives false true p at = elim (ℕ_discrete ptr 0) [
      | yes e ↦ inr (
          settled-Recovers p (
            settled empty_slot p (
              subst
                (λ n.
                  At (record { type = 0; reserved = 0; first = n; second = 0; third = 0 }) v used p)
                e at)))
      | no ne ↦ inr (untyped-Recovers p ne at)
    ]
    half-Survives false false p at = inr (settled-Recovers p (settled empty_slot p at))
