-- ===== src/Heap/View.antt =====
-- What allocation and recovery in src/libpmemobj depend on of the pool: the slot of one arena, one
-- pointer and the header of one chunk. What else may change is the header of a second chunk.
use nvml.Base.{
  ℕ, ◌+◌, ◌<◌, ◌^◌, ◌≡◌, ◌≢◌, ◌⊎◌, ap, ◌∙◌, List, length, Bool, true, false, if_true, if_false,
  bit_and, bit_or, ◌==◌, arith,
}
use nvml.Base.Memory.{Apart, get32-Agree}
use nvml.Base.Bits.{bit_and-one, bit_or-one, bit_and-but_one}
use nvml.Base.Words64.{get64-store-le64, get64-store-Apart}
use nvml.Heap.{
  ChunkHeader, InfoSlot, BackendPool, slot_stored, header_stored, word_stored, content_stored,
  header, apply,
}
use nvml.Heap.Backend.{is_used, with_used, without_used, pointer}
use nvml.Heap.Crash.{Torn}

pub is_used-with_used : (hdr : ChunkHeader) → is_used (with_used hdr) ≡ true
is_used-with_used hdr = ground (arith, bit_and-one (bit_or hdr.flags 1), bit_or-one hdr.flags)

pub is_used-without_used : (hdr : ChunkHeader) → is_used (without_used hdr) ≡ false
is_used-without_used hdr =
    ground (arith, bit_and-one (bit_and hdr.flags 65534), bit_and-but_one hdr.flags)

pub header-stored :
    (p : BackendPool) (z c : ℕ) (hdr : ChunkHeader)
    → header (apply (header_stored z c hdr) p) z c ≡ hdr
unfolding apply
header-stored p z c hdr =
    ap (λ t. t.chunk_header c) (if_true (z == z) _ (p.zone z) (ground arith))
    ∙ if_true (c == c) hdr (header p z c) (ground arith)

pub header-stored_ne :
    (p : BackendPool) (z c y a : ℕ) (hdr : ChunkHeader)
    → (y ≢ z) ⊎ (a ≢ c)
    → header (apply (header_stored z c hdr) p) y a ≡ header p y a
unfolding apply
header-stored_ne p z c y a hdr ne = ground arith

-- The pool `p` has the slot `s` for the arena `id`, the value `v` in the pointer, and the chunk `c`
-- of the zone `z`, which is used or not. It is otherwise as `start`, but for the chunk `d`.
pub record Shows (start : BackendPool) (id ptr z c d : ℕ) (s : InfoSlot) (v : ℕ) (used : Bool)
    (p : BackendPool) : Type 0 where
  pub slot : p.info_slot id ≡ s
  pub word : pointer p ptr ≡ v
  pub flag : is_used (header p z c) ≡ used
  pub elsewhere : (y a : ℕ) → (y ≢ z) ⊎ ((a ≢ c) × (a ≢ d)) → header p y a ≡ header start y a
  pub slots : (j : ℕ) → j ≢ id → p.info_slot j ≡ start.info_slot j

module _ (start : BackendPool) (id ptr z c d : ℕ) where
  pub slot_stored-Shows :
      (s s' : InfoSlot) (v : ℕ) (used : Bool) (p : BackendPool)
      → Shows start id ptr z c d s v used p
      → Shows start id ptr z c d s' v used (apply (slot_stored id s') p)
  unfolding apply
  slot_stored-Shows s s' v used p at = record {
    slot = ground arith;
    word = at.word;
    flag = at.flag;
    elsewhere = at.elsewhere;
    slots = λ j ne. if_false (j == id) s' (p.info_slot j) (ground arith) ∙ at.slots j ne;
  }

  pub word_stored-Shows :
      (s : InfoSlot) (v v' : ℕ) (used : Bool) (p : BackendPool)
      → v' < 2 ^ 64
      → Shows start id ptr z c d s v used p
      → Shows start id ptr z c d s v' used (apply (word_stored ptr v') p)
  unfolding apply
  word_stored-Shows s v v' used p lt at = record {
    slot = at.slot;
    word = get64-store-le64 p.content ptr v' lt;
    flag = at.flag;
    elsewhere = at.elsewhere;
    slots = at.slots;
  }

  pub content_stored-Shows :
      (s : InfoSlot) (v : ℕ) (used : Bool) (p : BackendPool) (off : ℕ) (bs : List ℕ)
      → Apart off (length bs) ptr 8
      → Shows start id ptr z c d s v used p
      → Shows start id ptr z c d s v used (apply (content_stored off bs) p)
  unfolding apply
  content_stored-Shows s v used p off bs apart at = record {
    slot = at.slot;
    word = get64-store-Apart p.content off bs ptr apart ∙ at.word;
    flag = at.flag;
    elsewhere = at.elsewhere;
    slots = at.slots;
  }

  pub Torn-Shows :
      (s : InfoSlot) (v : ℕ) (used : Bool) (p p' : BackendPool) (off : ℕ) (bs : List ℕ)
      → Apart off (length bs) ptr 8
      → Shows start id ptr z c d s v used p
      → Torn (content_stored off bs) p p'
      → Shows start id ptr z c d s v used p'
  Torn-Shows s v used p p' off bs apart at (headers, slots, zones, same) = record {
    slot = ap (λ f. f id) slots ∙ at.slot;
    word = omega (
      arith,
      get32-Agree p'.content p.content ptr (λ x lo hi. same x (omega arith)),
      get32-Agree p'.content p.content (ptr + 4) (λ x lo hi. same x (omega arith)),
      at.word,
    );
    flag = ap (λ f. is_used ((f z).chunk_header c)) zones ∙ at.flag;
    elsewhere = λ y a ne. ap (λ f. (f y).chunk_header a) zones ∙ at.elsewhere y a ne;
    slots = λ j ne. ap (λ f. f j) slots ∙ at.slots j ne;
  }

  -- The header of the chunk itself.
  pub header_stored-Shows :
      (s : InfoSlot) (v : ℕ) (used used' : Bool) (p : BackendPool) (hdr : ChunkHeader)
      → is_used hdr ≡ used'
      → Shows start id ptr z c d s v used p
      → Shows start id ptr z c d s v used' (apply (header_stored z c hdr) p)
  unfolding apply
  header_stored-Shows s v used used' p hdr is at = record {
    slot = at.slot;
    word = at.word;
    flag = ap is_used (header-stored p z c hdr) ∙ is;
    elsewhere = λ y a ne. header-stored_ne p z c y a hdr (ground arith) ∙ at.elsewhere y a ne;
    slots = at.slots;
  }

  -- The header of the second chunk.
  pub second_stored-Shows :
      (s : InfoSlot) (v : ℕ) (used : Bool) (p : BackendPool) (hdr : ChunkHeader)
      → c ≢ d
      → Shows start id ptr z c d s v used p
      → Shows start id ptr z c d s v used (apply (header_stored z d hdr) p)
  unfolding apply
  second_stored-Shows s v used p hdr apart at = record {
    slot = at.slot;
    word = at.word;
    flag = ap is_used (header-stored_ne p z d z c hdr (ground arith)) ∙ at.flag;
    elsewhere = λ y a ne. header-stored_ne p z d y a hdr (ground arith) ∙ at.elsewhere y a ne;
    slots = at.slots;
  }
