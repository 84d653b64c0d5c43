-- ===== src/Heap/Crash.antt =====
-- What a power failure leaves of the stores of a call, and how a property of all that it may leave
-- is proved store by store.
use nvml.Base.{
  Bool, if◌then◌else◌, ℕ, ◌≡◌, ◌⊎◌, refl, subst, sym, ap, ◌∙◌, inl, inr, List, [], ◌∷◌, ◌++◌,
  length,
}
use nvml.Base.Memory.{Outside}
use nvml.Heap.{
  BackendPool, InfoSlot, Event, slot_stored, header_stored, word_stored, content_stored, Heap,
  apply, persist,
}

-- The words of a slot, each from the one or from the other.
abbrev pub mix : Bool → Bool → Bool → Bool → Bool → InfoSlot → InfoSlot → InfoSlot
mix a b c d e old new = record {
  type = if a then new.type else old.type;
  reserved = if b then new.reserved else old.reserved;
  first = if c then new.first else old.first;
  second = if d then new.second else old.second;
  third = if e then new.third else old.third;
}

-- The words of a slot are stored one by one and persisted together, so any of them may have reached
-- the media. A fill or a copy that has not ended has changed only bytes of its range. The other
-- stores are there or are not.
abbrev pub Torn : Event → BackendPool → BackendPool → Type 0
Torn (content_stored off bs) p p' =
    (p'.primary_header ≡ p.primary_header)
    × (p'.info_slot ≡ p.info_slot)
    × (p'.zone ≡ p.zone)
    × ((a : ℕ) → Outside off (length bs) a → p'.content a ≡ p.content a)
Torn (slot_stored id s) p p' =
    (a : Bool) × (b : Bool) × (c : Bool) × (d : Bool) × (e : Bool) × (p'
      ≡ apply (slot_stored id (mix a b c d e (p.info_slot id) s)) p)
Torn (header_stored _ _ _) p p' = p' ≡ p
Torn (word_stored _ _) p p' = p' ≡ p

-- What a power failure before the end of the stores may leave.
pub data Leaves : BackendPool → List Event → BackendPool → Type 0 where
  nothing_more : {p : BackendPool} {es : List Event} → Leaves p es p
  torn : {p p' : BackendPool} {e : Event} {es : List Event} → Torn e p p' → Leaves p (e ∷ es) p'
  done :
      {p p' : BackendPool} {e : Event} {es : List Event}
      → Leaves (apply e p) es p'
      → Leaves p (e ∷ es) p'

abbrev pub replay : List Event → BackendPool → BackendPool
replay [] p = p
replay (e ∷ es) p = replay es (apply e p)

replay-append :
    (es : List Event) (e : Event) (p : BackendPool)
    → replay (es ++ (e ∷ [])) p ≡ apply e (replay es p)
replay-append [] e p = refl
replay-append (d ∷ es) e p = replay-append es e (apply d p)

-- One more store adds what it leaves when it is torn and when it is done.
Leaves-append :
    (es : List Event) (e : Event) (p p' : BackendPool)
    → Leaves p (es ++ (e ∷ [])) p'
    → Leaves p es p' ⊎ (Torn e (replay es p) p' ⊎ (apply e (replay es p) ≡ p'))
Leaves-append [] e p p' nothing_more = inl nothing_more
Leaves-append [] e p p' (torn t) = inr (inl t)
Leaves-append [] e p p' (done nothing_more) = inr (inr refl)
Leaves-append (d ∷ es) e p p' nothing_more = inl nothing_more
Leaves-append (d ∷ es) e p p' (torn t) = inl (torn t)
Leaves-append (d ∷ es) e p p' (done l) = elim (Leaves-append es e (apply d p) p' l) [
  | inl before ↦ inl (done before)
  | inr last ↦ inr last
]

-- `P` holds of whatever a failure in the stores since the pool was `start` may leave, and of the
-- pool itself.
pub record Throughout (P : BackendPool → Type 0) (start : BackendPool) (h : Heap) : Type 0 where
  pub left : (p : BackendPool) → Leaves start h.events p → P p
  pub whole : h.pool ≡ replay h.events start

pub start-Throughout :
    (P : BackendPool → Type 0) (h : Heap) → h.events ≡ [] → P h.pool → Throughout P h.pool h
start-Throughout P h e holds = record {
  left = λ p l. only p (subst (λ es. Leaves h.pool es p) e l);
  whole = ap (λ es. replay es h.pool) (sym e);
}
  where
    only : (p : BackendPool) → Leaves h.pool [] p → P p
    only p nothing_more = holds

pub persist-Throughout :
    (P : BackendPool → Type 0) (start : BackendPool) (e : Event) (h : Heap)
    → Throughout P start h
    → ((p : BackendPool) → Torn e h.pool p → P p)
    → P (apply e h.pool)
    → Throughout P start (persist e h)
unfolding persist
persist-Throughout P start e h t torn_holds done_holds = record {
  left = λ p l. elim (Leaves-append h.events e start p l) [
    | inl before ↦ t.left p before
    | inr (inl part) ↦ torn_holds p (subst (λ q. Torn e q p) (sym t.whole) part)
    | inr (inr is) ↦ subst P is (subst (λ q. P (apply e q)) t.whole done_holds)
  ];
  whole = ap (apply e) t.whole ∙ sym (replay-append h.events e start);
}

-- The failure may come after any beginning of the stores.
pub Leaves-replay : (es more : List Event) (p : BackendPool) → Leaves p (es ++ more) (replay es p)
Leaves-replay [] more p = nothing_more
Leaves-replay (e ∷ es) more p = done (Leaves-replay es more (apply e p))
