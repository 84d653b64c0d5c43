-- ===== src/Container/Search.antt =====
-- bst_find_node of src/libpmemobj/container_bst.c: what it finds.
use nvml.Base.{
  ℕ, ◌<◌, ◌≤◌, ◌≡◌, refl, sym, ap, subst, ◌∙◌, [], ◌∷◌, ◌++◌, ltb, ◌==◌, true, false, Bool, Option,
  some, none, if◌then◌else◌, arith,
}
use nvml.Container.{Tree, leaf, node, Side, to_left, to_right, NodePath, find_from, find_node}
use nvml.Container.Order.{AllKeys, IsOrdered, AllKeys-imp}
use nvml.Container.Remove.{node_at}
use native.Mathlib.Decide.{dec_lt, ℕ_discrete}

-- The keys that are asked for.
abbrev pub Fits : Bool → ℕ → ℕ → Type 0
Fits true key j = key ≤ j
Fits false key j = j ≡ key

Fits-le : (g : Bool) (key j : ℕ) → Fits g key j → key ≤ j
Fits-le true key j f = f
Fits-le false key j f = omega arith

Fits-same : (g : Bool) (key j : ℕ) → j ≡ key → Fits g key j
Fits-same true key j e = omega arith
Fits-same false key j e = e

-- A node with the least key of those asked for, if there is one.
abbrev pub Finds : Bool → ℕ → Tree → Option NodePath → Type 0
Finds g key t none = AllKeys (λ j. ¬ Fits g key j) t
Finds g key t (some p) =
    (k : ℕ) × (v : ℕ) × (node_at p t ≡ some (k, v))
    × Fits g key k
    × AllKeys (λ j. Fits g key j → k ≤ j) t

abbrev down : Side → Option NodePath → Option NodePath
down side none = none
down side (some p) = some (side ∷ p)

abbrev first_of : Option NodePath → Option NodePath → Option NodePath
first_of none o = o
first_of (some p) o = some p

-- The search below a node, with paths that start there.
unfoldable below : Bool → ℕ → Tree → Option NodePath
below g key leaf = none
below g key (node l k v r) =
    let in_left = below g key l in
    let in_right = below g key r in
    if k == key
    then some []
    else if ltb key k
    then first_of (down to_left in_left) (if g then some [] else none)
    else down to_right in_right

-- In terms of paths from the root.
abbrev from_root : NodePath → Option NodePath → Option NodePath → Option NodePath
from_root at best none = best
from_root at best (some p) = some (at ++ p)

path_append_nil : (xs : NodePath) → xs ++ [] ≡ xs
path_append_nil [] = refl
path_append_nil (x ∷ xs) = ap (λ t. x ∷ t) (path_append_nil xs)

path_append_assoc : (xs ys zs : NodePath) → (xs ++ ys) ++ zs ≡ xs ++ (ys ++ zs)
path_append_assoc [] ys zs = refl
path_append_assoc (x ∷ xs) ys zs = ap (λ t. x ∷ t) (path_append_assoc xs ys zs)

went_left :
    (at : NodePath) (best o : Option NodePath) (g : Bool)
    → from_root (at ++ (to_left ∷ [])) (if g then some at else best) o
      ≡ from_root at best (first_of (down to_left o) (if g then some [] else none))
went_left at best none true = ap some (sym (path_append_nil at))
went_left at best none false = refl
went_left at best (some p) g = ap some (path_append_assoc at (to_left ∷ []) p)

went_right :
    (at : NodePath) (best o : Option NodePath)
    → from_root (at ++ (to_right ∷ [])) best o ≡ from_root at best (down to_right o)
went_right at best none = refl
went_right at best (some p) = ap some (path_append_assoc at (to_right ∷ []) p)

find_from-below :
    (key : ℕ) (g : Bool) (t : Tree) (at : NodePath) (best : Option NodePath)
    → find_from key g t at best ≡ from_root at best (below g key t)
unfolding find_from below
find_from-below key g leaf at best = refl
find_from-below key g (node l k v r) at best = elim (ℕ_discrete k key) [
  | yes e ↦
      let same : (k == key) ≡ true = ground arith in rw same (ap some (sym (path_append_nil at)))
  | no ne ↦
      let other : (k == key) ≡ false = ground arith in
      elim (dec_lt key k) [
        | yes lt ↦
            let small : ltb key k ≡ true = ground arith in
            rw (other, small)
              (find_from-below key g l (at ++ (to_left ∷ [])) (if g then some at else best)
                ∙ went_left at best (below g key l) g)
        | no ge ↦
            let big : ltb key k ≡ false = ground arith in
            rw (other, big)
              (find_from-below key g r (at ++ (to_right ∷ [])) best
                ∙ went_right at best (below g key r))
      ]
]

no_node : {e : ℕ × ℕ} → ¬ (none ≡ some e)
no_node e = cc

node_at-AllKeys :
    (q : ℕ → Type 0) (p : NodePath) (t : Tree) (k v : ℕ)
    → node_at p t ≡ some (k, v)
    → AllKeys q t
    → q k
node_at-AllKeys q p leaf k v e a = absurd (no_node e)
node_at-AllKeys q [] (node l k' v' r) k v e a = let same : k' ≡ k = cc in subst q same a.1
node_at-AllKeys q (to_left ∷ p) (node l k' v' r) k v e a = node_at-AllKeys q p l k v e a.0
node_at-AllKeys q (to_right ∷ p) (node l k' v' r) k v e a = node_at-AllKeys q p r k v e a.2

here_Finds :
    (g : Bool) (key : ℕ) (l : Tree) (k v : ℕ) (r : Tree)
    → IsOrdered (node l k v r)
    → k ≡ key
    → Finds g key (node l k v r) (some [])
here_Finds g key l k v r o e = (
  k,
  v,
  refl,
  Fits-same g key k e,
  (
    AllKeys-imp (λ j. j < k) (λ j. Fits g key j → k ≤ j) l
        (λ j lt f. omega (arith, Fits-le g key j f)) o.0,
    λ f. omega arith,
    AllKeys-imp (λ j. k ≤ j) (λ j. Fits g key j → k ≤ j) r (λ j le f. le) o.1,
  ),
)

left_Finds :
    (g : Bool) (key : ℕ) (l : Tree) (k v : ℕ) (r : Tree) (found : Option NodePath)
    → IsOrdered (node l k v r)
    → key < k
    → Finds g key l found
    → Finds g key (node l k v r) (first_of (down to_left found) (if g then some [] else none))
left_Finds true key l k v r none o lt h = (
  k,
  v,
  refl,
  omega arith,
  (
    AllKeys-imp (λ j. ¬ (key ≤ j)) (λ j. key ≤ j → k ≤ j) l (λ j n f. absurd (n f)) h,
    λ f. omega arith,
    AllKeys-imp (λ j. k ≤ j) (λ j. key ≤ j → k ≤ j) r (λ j le f. le) o.1,
  ),
)
left_Finds false key l k v r none o lt h =
    (h, λ f. omega arith, AllKeys-imp (λ j. k ≤ j) (λ j. ¬ (j ≡ key)) r (λ j le f. omega arith) o.1)
left_Finds g key l k v r (some p) o lt (k', v', at, fits, least) =
    let below_k : k' < k = node_at-AllKeys (λ j. j < k) p l k' v' at o.0 in
    (
      k',
      v',
      at,
      fits,
      (
        least,
        λ f. omega arith,
        AllKeys-imp (λ j. k ≤ j) (λ j. Fits g key j → k' ≤ j) r (λ j le f. omega arith) o.1,
      ),
    )

right_Finds :
    (g : Bool) (key : ℕ) (l : Tree) (k v : ℕ) (r : Tree) (found : Option NodePath)
    → IsOrdered (node l k v r)
    → k < key
    → Finds g key r found
    → Finds g key (node l k v r) (down to_right found)
right_Finds g key l k v r none o lt h = (
  AllKeys-imp (λ j. j < k) (λ j. ¬ Fits g key j) l (λ j le f. omega (arith, Fits-le g key j f)) o.0,
  λ f. omega (arith, Fits-le g key k f),
  h,
)
right_Finds g key l k v r (some p) o lt (k', v', at, fits, least) = (
  k',
  v',
  at,
  fits,
  (
    AllKeys-imp (λ j. j < k) (λ j. Fits g key j → k' ≤ j) l
        (λ j le f. omega (arith, Fits-le g key j f)) o.0,
    λ f. omega (arith, Fits-le g key k f),
    least,
  ),
)

below-Finds : (g : Bool) (key : ℕ) (t : Tree) → IsOrdered t → Finds g key t (below g key t)
unfolding below
below-Finds g key leaf o = tt
below-Finds g key (node l k v r) o = elim (ℕ_discrete k key) [
  | yes e ↦ let same : (k == key) ≡ true = ground arith in rw same (here_Finds g key l k v r o e)
  | no ne ↦
      let other : (k == key) ≡ false = ground arith in
      elim (dec_lt key k) [
        | yes lt ↦
            let small : ltb key k ≡ true = ground arith in
            rw (other, small)
              (left_Finds g key l k v r (below g key l) o lt (below-Finds g key l o.2))
        | no ge ↦
            let big : ltb key k ≡ false = ground arith in
            rw (other, big)
              (right_Finds g key l k v r (below g key r) o (omega arith) (below-Finds g key r o.3))
      ]
]

-- In an ordered tree the search finds a node with the least of the keys that are asked for.
pub find_node-Finds :
    (g : Bool) (key : ℕ) (t : Tree) → IsOrdered t → Finds g key t (find_node key g t)
unfolding find_node
find_node-Finds g key t o =
    subst (Finds g key t) (sym (find_from-below key g t [] none ∙ whole (below g key t)))
      (below-Finds g key t o)
  where
    whole : (found : Option NodePath) → from_root [] none found ≡ found
    whole none = refl
    whole (some p) = refl
