-- ===== src/Heap/Reopen.antt =====
-- What closing a pool leaves for the next opening, in src/libpmemobj/backend_persistent.c.
use nvml.Base.{
  ℕ, zero, suc, ◌+◌, ◌<◌, ◌≤◌, ◌^◌, ◌≡◌, ◌⊎◌, inl, inr, refl, sym, ap, subst, ◌∙◌, List, [], ◌∷◌,
  length, get_or, Bool, true, false, if_true, if_false, ◌==◌, ◌&&◌, if◌then◌else◌, arith,
}
use native.Mathlib.Decide.{ℕ_discrete}
use nvml.Base.Memory.{word, le32, le64}
use mathlib.Core.Path.{ap₂}
use nvml.Btt.InfoBlock.{same_at}
use nvml.Checksum.{put, insert_checksum, checksum}
use nvml.Checksum.Fields.{get_or-put-Outside, length-put, word-put_inside, word-put_outside}
use nvml.Checksum.Laws.{verify-insert}
use nvml.Heap.{Heap}
use nvml.Heap.Zones.{get_max_zones}
use nvml.Heap.Open.{
  pool_signature, state_off, checksum_off, state_open, state_closed, verify_header, with_primary,
  recover_primary_header, write_backups, write_pool_layout, with_state, set_pool_state,
  can_open_pool, enter_pool, find_header, open_pmem_storage, close_pmem_storage,
}

-- A header of the right length with the signature.
pub record IsHeader (hdr : List ℕ) : Type 0 where
  pub long : length hdr ≡ 1024
  pub signed : same_at hdr 0 pool_signature ≡ true

same_at-same :
    (xs ys : List ℕ) (off : ℕ) (bs : List ℕ)
    → ((i : ℕ) → off ≤ i → i < off + length bs → get_or xs i 0 ≡ get_or ys i 0)
    → same_at xs off bs ≡ same_at ys off bs
same_at-same xs ys off [] h = refl
same_at-same xs ys off (b ∷ bs) h =
    ap₂ (λ x t. x == b && t) (h off (omega arith) (omega arith))
      (same_at-same xs ys (off + 1) bs (λ i lo hi. h i (omega arith) (omega arith)))

signed-put :
    (hdr : List ℕ) (off : ℕ) (new : List ℕ)
    → 16 ≤ off
    → off + length new ≤ length hdr
    → same_at (put hdr off new) 0 pool_signature ≡ same_at hdr 0 pool_signature
signed-put hdr off new lo hi =
    same_at-same (put hdr off new) hdr 0 pool_signature
      (λ i zero_le lt. get_or-put-Outside hdr off new i (inl (omega arith)) hi)

module _ (state : ℕ) (hdr : List ℕ) (g : IsHeader hdr) where
  abbrev marked : List ℕ
  marked = put hdr state_off (le32 state)

  marked_long : length marked ≡ 1024
  marked_long = length-put hdr state_off (le32 state) (omega (arith, g.long)) ∙ g.long

  -- A header with a new state is valid.
  pub verify-with_state : verify_header (with_state state hdr) ≡ true
  unfolding verify_header with_state insert_checksum
  verify-with_state = ground (
    arith,
    verify-insert marked checksum_off (omega arith) (omega (arith, marked_long)),
    signed-put marked checksum_off (le64 (checksum marked checksum_off)) (omega arith)
        (omega (arith, marked_long)),
    signed-put hdr state_off (le32 state) (omega arith) (omega (arith, g.long)),
    g.signed,
  )

  with_state-IsHeader : IsHeader (with_state state hdr)
  unfolding with_state insert_checksum
  with_state-IsHeader = record {
    long =
        length-put marked checksum_off (le64 (checksum marked checksum_off))
          (omega (arith, marked_long))
        ∙ marked_long;
    signed =
        signed-put marked checksum_off (le64 (checksum marked checksum_off)) (omega arith)
          (omega (arith, marked_long))
        ∙ signed-put hdr state_off (le32 state) (omega arith) (omega (arith, g.long))
        ∙ g.signed;
  }

  state-with_state : state < 2 ^ 32 → word (with_state state hdr) state_off ≡ state
  unfolding with_state insert_checksum
  state-with_state lt =
      word-put_outside marked checksum_off (le64 (checksum marked checksum_off)) state_off
        (omega arith) (omega (arith, marked_long))
      ∙ word-put_inside hdr state_off (le32 state) 0 state_off (omega arith) (omega arith)
          (omega (arith, g.long))
      ∙ omega arith

  -- The fields behind the state are the same.
  word-with_state :
      (k : ℕ) → 24 ≤ k → k + 4 ≤ checksum_off → word (with_state state hdr) k ≡ word hdr k
  unfolding with_state insert_checksum
  word-with_state k lo hi =
      word-put_outside marked checksum_off (le64 (checksum marked checksum_off)) k (omega arith)
        (omega (arith, marked_long))
      ∙ word-put_outside hdr state_off (le32 state) k (omega arith) (omega (arith, g.long))

abbrev pub backup : Heap → ℕ → List ℕ
backup h i = (h.pool.zone i).backup_header

write_backups_below :
    (left i : ℕ) (h : Heap) (j : ℕ) → j < i → backup (write_backups left i h) j ≡ backup h j
unfolding write_backups
write_backups_below zero i h j lt = refl
write_backups_below (suc left) i h j lt =
    write_backups_below left (i + 1) _ j (omega arith)
    ∙ ap (λ z. z.backup_header) (if_false (j == i) _ (h.pool.zone j) (ground arith))

-- What writing the backups leaves alone.
write_backups_same :
    (left i : ℕ) (h : Heap)
    → ((write_backups left i h).pool.primary_header ≡ h.pool.primary_header)
      × ((write_backups left i h).pool_size ≡ h.pool_size)
      × ((write_backups left i h).max_zone ≡ h.max_zone)
unfolding write_backups
write_backups_same zero i h = (refl, refl, refl)
write_backups_same (suc left) i h = write_backups_same left (i + 1) _

write_backups_lem :
    (left i : ℕ) (h : Heap) (j : ℕ)
    → i ≤ j
    → j < i + left
    → backup (write_backups left i h) j ≡ h.pool.primary_header
unfolding write_backups
write_backups_lem zero i h j lo hi = absurd (omega arith)
write_backups_lem (suc left) i h j lo hi = elim (ℕ_discrete j i) [
  | yes e ↦
      write_backups_below left (i + 1) _ j (omega arith)
      ∙ ap (λ z. z.backup_header) (if_true (j == i) _ (h.pool.zone j) (ground arith))
  | no ne ↦ write_backups_lem left (i + 1) _ j (omega arith) (omega arith)
]

-- A pool that is open: its header is valid and says so, and is in every zone.
pub record IsOpened (h : Heap) : Type 0 where
  pub valid : verify_header h.pool.primary_header ≡ true
  pub state : word h.pool.primary_header state_off ≡ state_open
  pub backups : (j : ℕ) → j < h.max_zone → backup h j ≡ h.pool.primary_header

module _ (state : ℕ) (h : Heap) where
  abbrev updated : Heap
  updated = with_primary (with_state state h.pool.primary_header) h

  pub set_pool_state_lem :
      ((set_pool_state state h).pool.primary_header ≡ with_state state h.pool.primary_header)
      × ((set_pool_state state h).pool_size ≡ h.pool_size)
      × ((set_pool_state state h).max_zone ≡ h.max_zone)
  unfolding set_pool_state
  set_pool_state_lem = write_backups_same h.max_zone 0 updated

  pub set_pool_state_backups :
      (j : ℕ)
      → j < h.max_zone
      → backup (set_pool_state state h) j ≡ with_state state h.pool.primary_header
  unfolding set_pool_state
  set_pool_state_backups j lt = write_backups_lem h.max_zone 0 updated j (omega arith) (omega arith)

opened : (h : Heap) → IsHeader h.pool.primary_header → IsOpened (set_pool_state state_open h)
opened h g =
    let (primary, size, zones) = set_pool_state_lem state_open h in
    record {
      valid = ap verify_header primary ∙ verify-with_state state_open h.pool.primary_header g;
      state =
          ap (λ t. word t state_off) primary
          ∙ state-with_state state_open h.pool.primary_header g (omega arith);
      backups =
          λ j lt. set_pool_state_backups state_open h j (subst (λ n. j < n) zones lt) ∙ sym primary;
    }

-- A compatible, closed pool whose header was found is opened.
enters :
    (found : Heap)
    → IsHeader found.pool.primary_header
    → can_open_pool found ≡ true
    → word found.pool.primary_header state_off ≡ state_closed
    → (k : Heap) → find_header (record k { max_zone = get_max_zones k.pool_size }) ≡ (true, found)
    → ((open_pmem_storage k).0 ≡ true) × IsOpened (open_pmem_storage k).1
unfolding open_pmem_storage enter_pool
enters found g can closed k e =
    subst (λ (r : Bool × Heap). (r.0 ≡ true) × IsOpened r.1) (sym whole) (refl, opened found g)
  where
    whole : open_pmem_storage k ≡ (true, set_pool_state state_open found)
    whole =
        ap
          (λ (r : Bool × Heap).
            if r.0
            then if can_open_pool r.1 then enter_pool r.1 else (false, r.1)
            else enter_pool (write_pool_layout r.1))
          e
        ∙ if_true (can_open_pool found) (enter_pool found) (false, found) can
        ∙ if_true (word found.pool.primary_header state_off == state_closed) _ _ (ground arith)

-- The pool after closing, with the primary header that is found on the media.
abbrev pub reached : Heap → List ℕ → Heap
reached h hdr = with_primary hdr (close_pmem_storage h)

module _ (h : Heap) (g : IsHeader h.pool.primary_header) (can : can_open_pool h ≡ true)
    (zones : h.max_zone ≡ get_max_zones h.pool_size) where
  abbrev closed_header : List ℕ
  closed_header = with_state state_closed h.pool.primary_header

  abbrev looked : List ℕ → Heap
  looked hdr = record (reached h hdr) { max_zone = get_max_zones (reached h hdr).pool_size }

  same_size : (close_pmem_storage h).pool_size ≡ h.pool_size
  unfolding close_pmem_storage
  same_size = (set_pool_state_lem state_closed h).1

  still_compatible : (hdr : List ℕ) → can_open_pool (with_primary closed_header (looked hdr)) ≡ true
  unfolding can_open_pool
  still_compatible hdr = ground (
    arith,
    can,
    same_size,
    word-with_state state_closed h.pool.primary_header g 24 (omega arith) (omega arith),
    word-with_state state_closed h.pool.primary_header g 28 (omega arith) (omega arith),
    word-with_state state_closed h.pool.primary_header g 40 (omega arith) (omega arith),
    word-with_state state_closed h.pool.primary_header g 44 (omega arith) (omega arith),
    word-with_state state_closed h.pool.primary_header g 48 (omega arith) (omega arith),
    word-with_state state_closed h.pool.primary_header g 52 (omega arith) (omega arith),
    word-with_state state_closed h.pool.primary_header g 56 (omega arith) (omega arith),
    word-with_state state_closed h.pool.primary_header g 60 (omega arith) (omega arith),
  )

  first_backup : 0 < h.max_zone → (hdr : List ℕ) → backup (looked hdr) 0 ≡ closed_header
  unfolding close_pmem_storage
  first_backup pos hdr = set_pool_state_backups state_closed h 0 pos

  from_backup :
      (left : ℕ) (hdr : List ℕ)
      → 0 < left
      → 0 < h.max_zone
      → recover_primary_header left 0 (looked hdr) ≡ (true, with_primary closed_header (looked hdr))
  unfolding recover_primary_header
  from_backup zero hdr lt pos = absurd (omega arith)
  from_backup (suc left) hdr lt pos =
      if_true (verify_header (backup (looked hdr) 0)) _ _ (
        ap verify_header (first_backup pos hdr)
        ∙ verify-with_state state_closed h.pool.primary_header g)
      ∙ ap (λ (t : List ℕ). (true, with_primary t (looked hdr))) (first_backup pos hdr)

  -- Let an open, compatible pool of one zone or more be closed. Whatever then becomes of its primary
  -- header, if it is the one that was written or one that is not valid, the next opening succeeds,
  -- and leaves the pool open: with a valid header, whose state is open, and which is in every zone.
  pub open-close :
      (hdr : List ℕ)
      → 0 < h.max_zone
      → (hdr ≡ (close_pmem_storage h).pool.primary_header) ⊎ (verify_header hdr ≡ false)
      → ((open_pmem_storage (reached h hdr)).0 ≡ true)
        × IsOpened (open_pmem_storage (reached h hdr)).1
  unfolding close_pmem_storage
  open-close hdr pos which =
      enters (with_primary closed_header (looked hdr))
        (with_state-IsHeader state_closed h.pool.primary_header g) (still_compatible hdr)
        (state-with_state state_closed h.pool.primary_header g (omega arith)) (reached h hdr)
        (elim which [
          | inl e ↦ whole e
          | inr bad ↦
              if_false (verify_header hdr) (true, looked hdr) _ bad
              ∙ from_backup (get_max_zones (reached h hdr).pool_size) hdr some_zone pos
        ])
    where
      some_zone : 0 < get_max_zones (reached h hdr).pool_size
      some_zone = omega (arith, zones, ap get_max_zones same_size)

      whole :
          hdr ≡ (close_pmem_storage h).pool.primary_header
          → find_header (looked hdr) ≡ (true, with_primary closed_header (looked hdr))
      whole e =
          let is : hdr ≡ closed_header = e ∙ (set_pool_state_lem state_closed h).0 in
          if_true (verify_header hdr) (true, looked hdr) _
            (ap verify_header is ∙ verify-with_state state_closed h.pool.primary_header g)
          ∙ ap (λ (t : List ℕ). (true, looked t)) is
