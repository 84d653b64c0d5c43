-- ===== src/Container/Remove.antt =====
-- bst_add and bst_remove of src/libpmemobj/container_bst.c: one entry comes or goes, and the keys
-- stay in order.
use nvml.Base.{
  ℕ, ◌<◌, ◌≤◌, ◌≡◌, refl, sym, ap, List, [], ◌∷◌, ◌++◌, ltb, true, false, Option, some, none, arith,
}
use nvml.Container.{
  Tree, leaf, node, to_left, to_right, NodePath, add, minimum, without_minimum, remove_root, remove,
  value_at,
}
use nvml.Container.Order.{
  entries, AllKeys, IsOrdered, AllKeys-imp, Splits, Splits-left, Splits-right, Splits-cons,
}
use native.Mathlib.Decide.{dec_lt}

pub add-Splits :
    (key value : ℕ) (t : Tree) → Splits (entries (add key value t)) (entries t) key value
unfolding add entries
add-Splits key value leaf = record { before = []; after = []; has = refl; hasnt = refl }
add-Splits key value (node l k v r) = elim (dec_lt key k) [
  | yes lt ↦
      let e : ltb key k ≡ true = ground arith in
      rw e (
        Splits-left (entries (add key value l)) (entries l) ((k, v) ∷ entries r) key value
          (add-Splits key value l))
  | no ge ↦
      let e : ltb key k ≡ false = ground arith in
      rw e (
        Splits-right ((k, v) ∷ entries (add key value r)) ((k, v) ∷ entries r) (entries l) key value
          (Splits-cons (entries (add key value r)) (entries r) (k, v) key value
            (add-Splits key value r)))
]

add-AllKeys :
    (p : ℕ → Type 0) (key value : ℕ) (t : Tree) → AllKeys p t → p key → AllKeys p (add key value t)
unfolding add
add-AllKeys p key value leaf a h = (tt, h, tt)
add-AllKeys p key value (node l k v r) a h = elim (dec_lt key k) [
  | yes lt ↦
      let e : ltb key k ≡ true = ground arith in rw e (add-AllKeys p key value l a.0 h, a.1, a.2)
  | no ge ↦
      let e : ltb key k ≡ false = ground arith in rw e (a.0, a.1, add-AllKeys p key value r a.2 h)
]

pub add-IsOrdered : (key value : ℕ) (t : Tree) → IsOrdered t → IsOrdered (add key value t)
unfolding add
add-IsOrdered key value leaf o = (tt, tt, tt, tt)
add-IsOrdered key value (node l k v r) o = elim (dec_lt key k) [
  | yes lt ↦
      let e : ltb key k ≡ true = ground arith in
      rw e (add-AllKeys (λ j. j < k) key value l o.0 lt, o.1, add-IsOrdered key value l o.2, o.3)
  | no ge ↦
      let e : ltb key k ≡ false = ground arith in
      rw e (
        o.0,
        add-AllKeys (λ j. k ≤ j) key value r o.1 (omega arith),
        o.2,
        add-IsOrdered key value r o.3,
      )
]

minimum-entries :
    (l : Tree) (k v : ℕ) (r : Tree)
    → entries (node l k v r) ≡ minimum l k v ∷ entries (without_minimum l k v r)
unfolding entries minimum without_minimum
minimum-entries leaf k v r = refl
minimum-entries (node l k' v' r') k v r =
    ap (λ t. t ++ ((k, v) ∷ entries r)) (minimum-entries l k' v' r')

without_minimum-AllKeys :
    (p : ℕ → Type 0) (l : Tree) (k v : ℕ) (r : Tree)
    → AllKeys p (node l k v r)
    → p (minimum l k v).0 × AllKeys p (without_minimum l k v r)
unfolding minimum without_minimum
without_minimum-AllKeys p leaf k v r a = (a.1, a.2)
without_minimum-AllKeys p (node l k' v' r') k v r a =
    let (m, rest) = without_minimum-AllKeys p l k' v' r' a.0 in (m, (rest, a.1, a.2))

without_minimum-IsOrdered :
    (l : Tree) (k v : ℕ) (r : Tree)
    → IsOrdered (node l k v r)
    → IsOrdered (without_minimum l k v r)
      × AllKeys (λ j. (minimum l k v).0 ≤ j) (without_minimum l k v r)
      × ((minimum l k v).0 ≤ k)
unfolding minimum without_minimum
without_minimum-IsOrdered leaf k v r o = (o.3, o.1, omega arith)
without_minimum-IsOrdered (node l k' v' r') k v r o =
    let (rest, least, le) = without_minimum-IsOrdered l k' v' r' o.2 in
    let (m_lt, rest_lt) = without_minimum-AllKeys (λ j. j < k) l k' v' r' o.0 in
    (
      (rest_lt, o.1, rest, o.3),
      (
        least,
        omega (arith, m_lt),
        AllKeys-imp (λ j. k ≤ j) (λ j. (minimum l k' v').0 ≤ j) r (λ j h. omega (arith, m_lt)) o.1,
      ),
      omega (arith, m_lt),
    )

append_nil : (xs : List (ℕ × ℕ)) → xs ++ [] ≡ xs
append_nil [] = refl
append_nil (x ∷ xs) = ap (λ t. x ∷ t) (append_nil xs)

remove_root-entries :
    (l : Tree) (k v : ℕ) (r : Tree) → entries (remove_root l k v r) ≡ entries l ++ entries r
unfolding remove_root entries
remove_root-entries leaf k v r = refl
remove_root-entries (node ll lk lv lr) k v leaf = sym (append_nil (entries (node ll lk lv lr)))
remove_root-entries (node ll lk lv lr) k v (node rl rk rv rr) =
    ap (λ t. entries (node ll lk lv lr) ++ t) (sym (minimum-entries rl rk rv rr))

remove_root-AllKeys :
    (p : ℕ → Type 0) (l : Tree) (k v : ℕ) (r : Tree)
    → AllKeys p l
    → AllKeys p r
    → AllKeys p (remove_root l k v r)
unfolding remove_root
remove_root-AllKeys p leaf k v r a c = c
remove_root-AllKeys p (node ll lk lv lr) k v leaf a c = a
remove_root-AllKeys p (node ll lk lv lr) k v (node rl rk rv rr) a c =
    let (m, rest) = without_minimum-AllKeys p rl rk rv rr c in (a, m, rest)

remove_root-IsOrdered :
    (l : Tree) (k v : ℕ) (r : Tree) → IsOrdered (node l k v r) → IsOrdered (remove_root l k v r)
unfolding remove_root
remove_root-IsOrdered leaf k v r o = o.3
remove_root-IsOrdered (node ll lk lv lr) k v leaf o = o.2
remove_root-IsOrdered (node ll lk lv lr) k v (node rl rk rv rr) o =
    let (rest, least, le) = without_minimum-IsOrdered rl rk rv rr o.3 in
    let (m, all) = without_minimum-AllKeys (λ j. k ≤ j) rl rk rv rr o.1 in
    (
      AllKeys-imp (λ j. j < k) (λ j. j < (minimum rl rk rv).0) (node ll lk lv lr)
          (λ j h. omega (arith, m)) o.0,
      least,
      o.2,
      rest,
    )

-- The entry of the node that a path leads to.
abbrev pub node_at : NodePath → Tree → Option (ℕ × ℕ)
node_at p leaf = none
node_at [] (node l k v r) = some (k, v)
node_at (to_left ∷ p) (node l k v r) = node_at p l
node_at (to_right ∷ p) (node l k v r) = node_at p r

no_node : {e : ℕ × ℕ} → ¬ (none ≡ some e)
no_node e = cc

pub value_at_lem :
    (p : NodePath) (t : Tree) (k v : ℕ) → node_at p t ≡ some (k, v) → value_at p t ≡ v
unfolding value_at
value_at_lem p leaf k v e = absurd (no_node e)
value_at_lem [] (node l k' v' r) k v e = cc
value_at_lem (to_left ∷ p) (node l k' v' r) k v e = value_at_lem p l k v e
value_at_lem (to_right ∷ p) (node l k' v' r) k v e = value_at_lem p r k v e

pub remove-Splits :
    (p : NodePath) (t : Tree) (k v : ℕ)
    → node_at p t ≡ some (k, v)
    → Splits (entries t) (entries (remove p t)) k v
unfolding remove entries
remove-Splits p leaf k v e = absurd (no_node e)
remove-Splits [] (node l k' v' r) k v e = record {
  before = entries l;
  after = entries r;
  has = let same : (k', v') ≡ (k, v) = cc in ap (λ x. entries l ++ (x ∷ entries r)) same;
  hasnt = remove_root-entries l k' v' r;
}
remove-Splits (to_left ∷ p) (node l k' v' r) k v e =
    Splits-left (entries l) (entries (remove p l)) ((k', v') ∷ entries r) k v
      (remove-Splits p l k v e)
remove-Splits (to_right ∷ p) (node l k' v' r) k v e =
    Splits-right ((k', v') ∷ entries r) ((k', v') ∷ entries (remove p r)) (entries l) k v
      (Splits-cons (entries r) (entries (remove p r)) (k', v') k v (remove-Splits p r k v e))

remove-AllKeys : (q : ℕ → Type 0) (p : NodePath) (t : Tree) → AllKeys q t → AllKeys q (remove p t)
unfolding remove
remove-AllKeys q p leaf a = tt
remove-AllKeys q [] (node l k v r) a = remove_root-AllKeys q l k v r a.0 a.2
remove-AllKeys q (to_left ∷ p) (node l k v r) a = (remove-AllKeys q p l a.0, a.1, a.2)
remove-AllKeys q (to_right ∷ p) (node l k v r) a = (a.0, a.1, remove-AllKeys q p r a.2)

pub remove-IsOrdered : (p : NodePath) (t : Tree) → IsOrdered t → IsOrdered (remove p t)
unfolding remove
remove-IsOrdered p leaf o = tt
remove-IsOrdered [] (node l k v r) o = remove_root-IsOrdered l k v r o
remove-IsOrdered (to_left ∷ p) (node l k v r) o =
    (remove-AllKeys (λ j. j < k) p l o.0, o.1, remove-IsOrdered p l o.2, o.3)
remove-IsOrdered (to_right ∷ p) (node l k v r) o =
    (o.0, remove-AllKeys (λ j. k ≤ j) p r o.1, o.2, remove-IsOrdered p r o.3)
