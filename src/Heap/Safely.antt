-- ===== src/Heap/Safely.antt =====
-- Stores of src/libpmemobj/backend_persistent.c after each of which what a power failure leaves has
-- a property, such as that recovery can settle it.
use nvml.Base.{ℕ, ◌<◌, ◌^◌, ◌≡◌, ◌≢◌, sym, ap, subst, ◌∙◌, List, length, Bool}
use nvml.Base.Memory.{Apart}
use nvml.Heap.{
  ChunkHeader, InfoSlot, BackendPool, Heap, Event, slot_stored, header_stored, word_stored,
  content_stored, apply, persist,
}
use nvml.Heap.Backend.{is_used}
use nvml.Heap.Crash.{mix, Torn, Leaves, replay, Throughout, persist-Throughout}
use nvml.Heap.View.{
  Shows, slot_stored-Shows, word_stored-Shows, content_stored-Shows, Torn-Shows,
  header_stored-Shows, second_stored-Shows,
}

module _ (P : BackendPool → Type 0) (start : BackendPool) (id ptr z c d : ℕ) where
  abbrev pub At : InfoSlot → ℕ → Bool → BackendPool → Type 0
  At s v used p = Shows start id ptr z c d s v used p

  abbrev pub Good : InfoSlot → ℕ → Bool → Type 0
  Good s v used = (p : BackendPool) → At s v used p → P p

  -- What the pool shows after some stores, any beginning of which leaves a pool with `P`.
  pub record Safely (s : InfoSlot) (v : ℕ) (used : Bool) (g : Heap) : Type 0 where
    pub at : At s v used g.pool
    pub throughout : Throughout P start g

  -- A store that is there or is not.
  pub store-Safely :
      (s s' : InfoSlot) (v v' : ℕ) (used used' : Bool) (e : Event) (g : Heap)
      → ((p : BackendPool) → Torn e g.pool p → At s v used p)
      → Good s v used
      → Good s' v' used'
      → Safely s v used g
      → At s' v' used' (apply e g.pool)
      → Safely s' v' used' (persist e g)
  unfolding persist
  store-Safely s s' v v' used used' e g part before after i at = record {
    at = at;
    throughout =
        persist-Throughout P start e g i.throughout (λ p t. before p (part p t))
          (after (apply e g.pool) at);
  }

  -- The words of the slot reach the media in any order.
  pub slot-Safely :
      (s s' : InfoSlot) (v : ℕ) (used : Bool) (g : Heap)
      → ((k l m n o : Bool) → Good (mix k l m n o s s') v used)
      → Good s' v used
      → Safely s v used g
      → Safely s' v used (persist (slot_stored id s') g)
  unfolding persist
  slot-Safely s s' v used g mixed after i = record {
    at = whole;
    throughout =
        persist-Throughout P start (slot_stored id s') g i.throughout
          (λ p (t : Torn (slot_stored id s') g.pool p).
            mixed t.0 t.1 t.2 t.3 t.4 p (part t.0 t.1 t.2 t.3 t.4 p t.5))
          (after (apply (slot_stored id s') g.pool) whole);
  }
    where
      whole : At s' v used (apply (slot_stored id s') g.pool)
      whole = slot_stored-Shows start id ptr z c d s s' v used g.pool i.at

      part :
          (k l m n o : Bool) (p : BackendPool)
          → p ≡ apply (slot_stored id (mix k l m n o (g.pool.info_slot id) s')) g.pool
          → At (mix k l m n o s s') v used p
      part k l m n o p e =
          subst (At (mix k l m n o s s') v used)
            (ap (λ t. apply (slot_stored id (mix k l m n o t s')) g.pool) (sym i.at.slot) ∙ sym e)
            (slot_stored-Shows start id ptr z c d s (mix k l m n o s s') v used g.pool i.at)

  pub word-Safely :
      (s : InfoSlot) (v v' : ℕ) (used : Bool) (g : Heap)
      → v' < 2 ^ 64
      → Good s v used
      → Good s v' used
      → Safely s v used g
      → Safely s v' used (persist (word_stored ptr v') g)
  word-Safely s v v' used g lt before after i =
      store-Safely s s v v' used used (word_stored ptr v') g
        (λ p t. subst (At s v used) (sym t) i.at) before after i
        (word_stored-Shows start id ptr z c d s v v' used g.pool lt i.at)

  pub header-Safely :
      (s : InfoSlot) (v : ℕ) (used used' : Bool) (hdr : ChunkHeader) (g : Heap)
      → is_used hdr ≡ used'
      → Good s v used
      → Good s v used'
      → Safely s v used g
      → Safely s v used' (persist (header_stored z c hdr) g)
  header-Safely s v used used' hdr g is before after i =
      store-Safely s s v v used used' (header_stored z c hdr) g
        (λ p t. subst (At s v used) (sym t) i.at) before after i
        (header_stored-Shows start id ptr z c d s v used used' g.pool hdr is i.at)

  pub second-Safely :
      (s : InfoSlot) (v : ℕ) (used : Bool) (hdr : ChunkHeader) (g : Heap)
      → c ≢ d
      → Good s v used
      → Safely s v used g
      → Safely s v used (persist (header_stored z d hdr) g)
  second-Safely s v used hdr g ne good i =
      store-Safely s s v v used used (header_stored z d hdr) g
        (λ p t. subst (At s v used) (sym t) i.at) good good i
        (second_stored-Shows start id ptr z c d s v used g.pool hdr ne i.at)

  pub content-Safely :
      (s : InfoSlot) (v : ℕ) (used : Bool) (o : ℕ) (bs : List ℕ) (g : Heap)
      → Apart o (length bs) ptr 8
      → Good s v used
      → Safely s v used g
      → Safely s v used (persist (content_stored o bs) g)
  content-Safely s v used o bs g apart good i =
      store-Safely s s v v used used (content_stored o bs) g
        (λ p t. Torn-Shows start id ptr z c d s v used g.pool p o bs apart i.at t) good good i
        (content_stored-Shows start id ptr z c d s v used g.pool o bs apart i.at)

  -- A change of the bucket is no store.
  pub bucket-Safely :
      (s : InfoSlot) (v : ℕ) (used : Bool) (g g' : Heap)
      → g'.pool ≡ g.pool
      → g'.events ≡ g.events
      → Safely s v used g
      → Safely s v used g'
  bucket-Safely s v used g g' same_pool same_events i = record {
    at = subst (At s v used) (sym same_pool) i.at;
    throughout = record {
      left = λ p l. i.throughout.left p (subst (λ es. Leaves start es p) same_events l);
      whole = same_pool ∙ (i.throughout.whole ∙ ap (λ es. replay es start) (sym same_events));
    };
  }
