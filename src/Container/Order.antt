-- ===== src/Container/Order.antt =====
-- The order of the keys in the tree of src/libpmemobj/container_bst.c, and its entries.
use nvml.Base.{ℕ, ◌<◌, ◌≤◌, ◌≡◌, refl, sym, ap, ◌∙◌, List, [], ◌∷◌, ◌++◌}
use nvml.Container.{Tree, leaf, node}

-- The entries in the order of the tree.
unfoldable pub entries : Tree → List (ℕ × ℕ)
entries leaf = []
entries (node l k v r) = entries l ++ ((k, v) ∷ entries r)

-- All keys have a property.
abbrev pub AllKeys : (ℕ → Type 0) → Tree → Type 0
AllKeys p leaf = Unit {0}
AllKeys p (node l k v r) = AllKeys p l × p k × AllKeys p r

-- Keys to the left are less, and those to the right not.
abbrev pub IsOrdered : Tree → Type 0
IsOrdered leaf = Unit {0}
IsOrdered (node l k v r) =
    AllKeys (λ j. j < k) l × AllKeys (λ j. k ≤ j) r × IsOrdered l × IsOrdered r

pub AllKeys-imp : (p q : ℕ → Type 0) (t : Tree) → ((j : ℕ) → p j → q j) → AllKeys p t → AllKeys q t
AllKeys-imp p q leaf h a = tt
AllKeys-imp p q (node l k v r) h a = (AllKeys-imp p q l h a.0, h k a.1, AllKeys-imp p q r h a.2)

-- One entry more or less, in its place.
pub record Splits (with without : List (ℕ × ℕ)) (k v : ℕ) : Type 0 where
  pub before : List (ℕ × ℕ)
  pub after : List (ℕ × ℕ)
  pub has : with ≡ before ++ ((k, v) ∷ after)
  pub hasnt : without ≡ before ++ after

append_assoc : (xs ys zs : List (ℕ × ℕ)) → (xs ++ ys) ++ zs ≡ xs ++ (ys ++ zs)
append_assoc [] ys zs = refl
append_assoc (x ∷ xs) ys zs = ap (λ t. x ∷ t) (append_assoc xs ys zs)

pub Splits-left :
    (w o rest : List (ℕ × ℕ)) (k v : ℕ) → Splits w o k v → Splits (w ++ rest) (o ++ rest) k v
Splits-left w o rest k v s = record {
  before = s.before;
  after = s.after ++ rest;
  has = ap (λ t. t ++ rest) s.has ∙ append_assoc s.before ((k, v) ∷ s.after) rest;
  hasnt = ap (λ t. t ++ rest) s.hasnt ∙ append_assoc s.before s.after rest;
}

pub Splits-right :
    (w o pre : List (ℕ × ℕ)) (k v : ℕ) → Splits w o k v → Splits (pre ++ w) (pre ++ o) k v
Splits-right w o pre k v s = record {
  before = pre ++ s.before;
  after = s.after;
  has = ap (λ t. pre ++ t) s.has ∙ sym (append_assoc pre s.before ((k, v) ∷ s.after));
  hasnt = ap (λ t. pre ++ t) s.hasnt ∙ sym (append_assoc pre s.before s.after);
}

pub Splits-cons :
    (w o : List (ℕ × ℕ)) (e : ℕ × ℕ) (k v : ℕ) → Splits w o k v → Splits (e ∷ w) (e ∷ o) k v
Splits-cons w o e k v s = Splits-right w o (e ∷ []) k v s
