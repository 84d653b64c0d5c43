-- ===== src/Heap/Reboot.antt =====
-- Opening a pool that was not closed, in src/libpmemobj/backend_persistent.c: the recovery of one
-- slot within the recovery of all.
use nvml.Base.{
  ℕ, zero, suc, ◌+◌, ◌<◌, ◌≤◌, ◌≡◌, ◌≢◌, ◌⊎◌, inl, inr, refl, sym, ap, subst, ◌∙◌, Bool, true,
  false, if_true, if_false, ◌==◌, if◌then◌else◌, arith,
}
use native.Mathlib.Decide.{ℕ_discrete}
use nvml.Base.Memory.{word, get64}
use nvml.Heap.{InfoSlot, BackendPool, Heap, empty_slot, apply, persist, max_info_slot}
use nvml.Heap.Chunk.{get_chunk_by_offset, data_offset}
use nvml.Heap.Backend.{is_used, set_chunk_flag, clear_chunk_flag, set_alloc_ptr}
use nvml.Heap.Recover.{
  is_empty, clear_slot, revert, recover_slot_alloc, recover_slot_realloc, recover_slot_free,
  recover_slot, recover_info_slot,
}
use nvml.Heap.Crash.{Leaves}
use nvml.Heap.View.{Shows}
use nvml.Heap.Settle.{IsSettled, IsHalfGuarded}
use nvml.Heap.Atomic.{IsAtomic}
use nvml.Heap.Closed.{write_backups_chunks}
use nvml.Heap.Zones.{get_max_zones}
use nvml.Heap.Open.{
  find_header, write_pool_layout, state_off, state_open, state_closed, verify_header, write_backups,
  recover_slots, enter_pool, can_open_pool, open_pmem_storage,
}

-- A change that leaves the slots.
abbrev Keeps : Heap → Heap → Type 0
Keeps h h' = h'.pool.info_slot ≡ h.pool.info_slot

clear_chunk_flag-Keeps : (z c : ℕ) (h : Heap) → Keeps h (clear_chunk_flag z c h).1
unfolding clear_chunk_flag persist apply
clear_chunk_flag-Keeps z c h = ground arith

set_chunk_flag-Keeps : (z c : ℕ) (h : Heap) → Keeps h (set_chunk_flag z c h).1
unfolding set_chunk_flag persist apply
set_chunk_flag-Keeps z c h = ground arith

revert-Keeps : (ptr value : ℕ) (h : Heap) → Keeps h (revert ptr value h)
unfolding revert set_alloc_ptr persist apply
revert-Keeps ptr value h =
    let (z, c) = get_chunk_by_offset (h.pool.content ptr) in clear_chunk_flag-Keeps _ _ h

choice-Keeps : (b : Bool) (h k : Heap) → Keeps h k → Keeps h (if b then h else k)
choice-Keeps true h k e = refl
choice-Keeps false h k e = e

cleared :
    (id : ℕ) (h k : Heap) (j : ℕ)
    → j ≢ id
    → Keeps h k
    → (clear_slot id k).pool.info_slot j ≡ h.pool.info_slot j
unfolding clear_slot persist apply
cleared id h k j ne e =
    if_false (j == id) empty_slot (k.pool.info_slot j) (ground arith) ∙ ap (λ f. f j) e

module _ (id : ℕ) (s : InfoSlot) (h : Heap) (j : ℕ) (ne : j ≢ id) where
  alloc_others : (recover_slot_alloc id s h).pool.info_slot j ≡ h.pool.info_slot j
  unfolding recover_slot_alloc
  alloc_others = cleared id h _ j ne (choice-Keeps _ h _ (revert-Keeps s.first 0 h))

  realloc_others : (recover_slot_realloc id s h).pool.info_slot j ≡ h.pool.info_slot j
  unfolding recover_slot_realloc
  realloc_others = cleared id h _ j ne (choice-Keeps _ h _ (revert-Keeps s.first s.second h))

  free_others : (recover_slot_free id s h).pool.info_slot j ≡ h.pool.info_slot j
  unfolding recover_slot_free
  free_others = cleared id h _ j ne (choice-Keeps _ h _ (set_chunk_flag-Keeps _ _ h))

  recover_slot_others : (recover_slot id s h).pool.info_slot j ≡ h.pool.info_slot j
  unfolding recover_slot
  recover_slot_others =
      ground (arith, cleared id h h j ne refl, alloc_others, realloc_others, free_others)

recover_others :
    (id : ℕ) (h : Heap) (j : ℕ)
    → j ≢ id
    → (recover_info_slot id h).pool.info_slot j ≡ h.pool.info_slot j
unfolding recover_info_slot
recover_others id h j ne = ground (arith, recover_slot_others id (h.pool.info_slot id) h j ne)

recover_empty : (j : ℕ) (h : Heap) → h.pool.info_slot j ≡ empty_slot → recover_info_slot j h ≡ h
unfolding recover_info_slot
recover_empty j h e = if_true (is_empty (h.pool.info_slot j)) h _ (ap is_empty e)

recover_slots_empty :
    (left i : ℕ) (h : Heap)
    → ((j : ℕ) → i ≤ j → h.pool.info_slot j ≡ empty_slot)
    → recover_slots left i h ≡ h
unfolding recover_slots
recover_slots_empty zero i h e = refl
recover_slots_empty (suc left) i h e =
    ap (recover_slots left (i + 1)) (recover_empty i h (e i (omega arith)))
    ∙ recover_slots_empty left (i + 1) h (λ j le. e j (omega arith))

-- Where one slot is not empty, recovery of all slots is recovery of that one.
recover_slots_one :
    (id left i : ℕ) (h : Heap)
    → i ≤ id
    → id < i + left
    → ((j : ℕ) → j ≢ id → h.pool.info_slot j ≡ empty_slot)
    → recover_slots left i h ≡ recover_info_slot id h
unfolding recover_slots
recover_slots_one id zero i h lo hi e = absurd (omega arith)
recover_slots_one id (suc left) i h lo hi e = elim (ℕ_discrete i id) [
  | yes is ↦
      recover_slots_empty left (i + 1) (recover_info_slot i h)
        (λ j le. recover_others i h j (λ t. omega arith) ∙ e j (λ t. omega arith))
      ∙ ap (λ t. recover_info_slot t h) is
  | no ne ↦
      ap (recover_slots left (i + 1)) (recover_empty i h (e i ne))
      ∙ recover_slots_one id left (i + 1) h (omega arith) (omega arith) e
]

-- A pool as a power failure leaves it while it is open, in the midst of one operation: compatible,
-- with a valid header that says it is open, and no slot but that of the arena `id` in use.
pub record IsInterrupted (id : ℕ) (k : Heap) : Type 0 where
  pub valid : verify_header k.pool.primary_header ≡ true
  pub compatible : can_open_pool k ≡ true
  pub was_open : word k.pool.primary_header state_off ≡ state_open
  pub zones : k.max_zone ≡ get_max_zones k.pool_size
  pub in_slots : id < max_info_slot
  pub others : (j : ℕ) → j ≢ id → k.pool.info_slot j ≡ empty_slot

content_kept : (left i : ℕ) (h : Heap) → (write_backups left i h).pool.content ≡ h.pool.content
unfolding write_backups
content_kept zero i h = refl
content_kept (suc left) i h = content_kept left (i + 1) _

module _ (id : ℕ) (k : Heap) (g : IsInterrupted id k) where
  abbrev rescued : Heap
  rescued = recover_info_slot id k

  reopened : open_pmem_storage k ≡ (true, write_backups rescued.max_zone 0 rescued)
  unfolding open_pmem_storage enter_pool
  reopened =
      ap (λ n. (open_from (record k { max_zone = n }))) (sym g.zones)
      ∙ ap
          (λ (r : Bool × Heap).
            if r.0
            then if can_open_pool r.1 then enter_pool r.1 else (false, r.1)
            else enter_pool (write_pool_layout r.1))
          (if_true (verify_header k.pool.primary_header) (true, k) _ g.valid)
      ∙ if_true (can_open_pool k) (enter_pool k) (false, k) g.compatible
      ∙ if_false (word k.pool.primary_header state_off == state_closed) _ _
          (ground (arith, g.was_open))
      ∙ if_true (word k.pool.primary_header state_off == state_open) _ (false, k)
          (ground (arith, g.was_open))
      ∙ ap (λ (t : Heap). (true, write_backups t.max_zone 0 t))
          (recover_slots_one id max_info_slot 0 k (omega arith) g.in_slots g.others)
    where
      open_from : Heap → Bool × Heap
      open_from t =
          let (pool_valid, found) = find_header t in
          if pool_valid
          then if can_open_pool found then enter_pool found else (false, found)
          else enter_pool (write_pool_layout found)

  module _ (start : BackendPool) (ptr z c d : ℕ) where
    -- Writing the backups does not matter to what a call sees of the pool.
    backups-Shows :
        (s : InfoSlot) (v : ℕ) (used : Bool)
        → Shows start id ptr z c d s v used rescued.pool
        → Shows start id ptr z c d s v used (write_backups rescued.max_zone 0 rescued).pool
    backups-Shows s v used at =
        let (slots, chunks) = write_backups_chunks rescued.max_zone 0 rescued in
        let content = content_kept rescued.max_zone 0 rescued in
        record {
          slot = ap (λ f. f id) slots ∙ at.slot;
          word = ap (λ m. get64 m ptr) content ∙ at.word;
          flag = ap (λ f. is_used (f c)) (chunks z) ∙ at.flag;
          elsewhere = λ y a ne. ap (λ f. f a) (chunks y) ∙ at.elsewhere y a ne;
          slots = λ j ne. ap (λ f. f j) slots ∙ at.slots j ne;
        }

-- Let a call be atomic, as pmalloc-IsAtomic and pfree-IsAtomic show, and let a power failure during
-- it leave a pool where no other operation was under way. The slot is then half-written, with its type
-- on the media and its address not, while the pointer is null and the chunk free or the pointer refers
-- to the chunk, which is used; or opening the pool succeeds, and then the pointer is null and the
-- chunk free, or the pointer refers to the chunk, which is used; the slots are empty as before the
-- call, and no other chunk has changed but the rest that was split off.
pub open-IsAtomic :
    (h h' : Heap) (id ptr z c d v : ℕ) (used : Bool) (p : BackendPool)
    → IsAtomic h id ptr z c d v used h'
    → Leaves h.pool h'.events p
    → IsInterrupted id (record h { pool = p })
    → let (opened, k) = open_pmem_storage (record h { pool = p }) in
      IsHalfGuarded h.pool id ptr z c d (data_offset z c) p
      ⊎ ((opened ≡ true) × IsSettled h.pool id ptr z c d (data_offset z c) k.pool)
open-IsAtomic h h' id ptr z c d v used p a left g =
    subst
      (λ (r : Bool × Heap).
        IsHalfGuarded h.pool id ptr z c d (data_offset z c) p
        ⊎ ((r.0 ≡ true) × IsSettled h.pool id ptr z c d (data_offset z c) r.1.pool))
      (sym (reopened id (record h { pool = p }) g))
      (elim (a.settled p left) [
        | inl torn ↦ inl torn
        | inr (inl at) ↦ inr (
          refl,
          inl (backups-Shows id (record h { pool = p }) g h.pool ptr z c d empty_slot 0 false at),
        )
        | inr (inr at) ↦ inr (
          refl,
          inr (
              backups-Shows id (record h { pool = p }) g h.pool ptr z c d empty_slot
                (data_offset z c) true at),
        )
      ])
