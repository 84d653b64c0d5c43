-- ===== src/Container.antt =====
-- src/libpmemobj/container_bst.c: the search tree that a bucket of the allocator keeps its free
-- blocks in. A pointer to a node is the path to it from the root, so the parent pointers are the
-- paths themselves. The lock is left out, and allocation of a node does not fail.
pub mod Order
pub mod Remove
pub mod Search
pub mod Laws
mod Tests
use nvml.Base.{
  ℕ, List, [], ◌∷◌, ◌++◌, Option, none, some, Bool, true, false, ltb, ◌==◌, if◌then◌else◌,
}

-- `struct bst_node`, or NULL.
pub data Tree : Type 0 where
  leaf : Tree
  node : (left : Tree) (key value : ℕ) (right : Tree) → Tree

pub data Side : Type 0 where
  to_left to_right : Side

-- The way from the root to a node.
abbrev pub NodePath : Type 0
NodePath = List Side

abbrev pub null_val : ℕ
null_val = 18446744073709551615

-- bst_add
unfoldable pub add : ℕ → ℕ → Tree → Tree
add key value leaf = node leaf key value leaf
add key value (node l k v r) =
    let in_left = add key value l in
    let in_right = add key value r in if ltb key k then node in_left k v r else node l k v in_right

-- The loop of bst_find_node at the node `at`, with `best` for b.
unfoldable pub find_from : ℕ → Bool → Tree → NodePath → Option NodePath → Option NodePath
find_from key greater leaf at best = best
find_from key greater (node l k v r) at best =
    let in_left =
      find_from key greater l (at ++ (to_left ∷ [])) (if greater then some at else best) in
    let in_right = find_from key greater r (at ++ (to_right ∷ [])) best in
    if k == key then some at else if ltb key k then in_left else in_right

unfoldable pub find_node : ℕ → Bool → Tree → Option NodePath
find_node key greater t = find_from key greater t [] none

-- The minimum of the tree whose root is (l, k, v, r), and the tree without its node, which has no
-- left child.
unfoldable pub minimum : Tree → ℕ → ℕ → ℕ × ℕ
minimum leaf k v = (k, v)
minimum (node l k' v' r) k v = minimum l k' v'

unfoldable pub without_minimum : Tree → ℕ → ℕ → Tree → Tree
without_minimum leaf k v r = r
without_minimum (node l k' v' r') k v r = node (without_minimum l k' v' r') k v r

-- What bst_remove puts in the place of the node.
unfoldable pub remove_root : Tree → ℕ → ℕ → Tree → Tree
remove_root leaf k v r = r
remove_root (node ll lk lv lr) k v leaf = node ll lk lv lr
remove_root (node ll lk lv lr) k v (node rl rk rv rr) =
    let (mk, mv) = minimum rl rk rv in node (node ll lk lv lr) mk mv (without_minimum rl rk rv rr)

-- bst_remove of the node that the path leads to. It leads to one.
unfoldable pub remove : NodePath → Tree → Tree
remove p leaf = leaf
remove [] (node l k v r) = remove_root l k v r
remove (to_left ∷ p) (node l k v r) = node (remove p l) k v r
remove (to_right ∷ p) (node l k v r) = node l k v (remove p r)

-- n->value
unfoldable pub value_at : NodePath → Tree → ℕ
value_at p leaf = null_val
value_at [] (node l k v r) = v
value_at (to_left ∷ p) (node l k v r) = value_at p l
value_at (to_right ∷ p) (node l k v r) = value_at p r

abbrev pub take_out : Option NodePath → Tree → ℕ × Tree
take_out none t = (null_val, t)
take_out (some p) t = (value_at p t, remove p t)

-- best_get_rm
unfoldable pub get_rm : ℕ → Bool → Tree → ℕ × Tree
get_rm key greater t = take_out (find_node key greater t) t

abbrev pub get_rm_eq : ℕ → Tree → ℕ × Tree
get_rm_eq key = get_rm key false

abbrev pub get_rm_ge : ℕ → Tree → ℕ × Tree
get_rm_ge key = get_rm key true
