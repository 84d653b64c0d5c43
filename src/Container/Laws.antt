-- ===== src/Container/Laws.antt =====
-- What the container of src/libpmemobj/container_bst.c promises: a multiset of entries, ordered by
-- their keys.
use nvml.Base.{ℕ, ◌≤◌, ◌≡◌, ◌⊎◌, inl, inr, refl, subst, sym, Bool, Option, some, none}
use nvml.Container.{Tree, NodePath, null_val, add, remove, find_node, get_rm, take_out}
use nvml.Container.Order.{entries, AllKeys, IsOrdered, Splits}
use nvml.Container.Remove.{add-Splits, add-IsOrdered, remove-Splits, remove-IsOrdered, value_at_lem}
use nvml.Container.Search.{Fits, Finds, find_node-Finds}

-- bst_add puts one entry more into the container and keeps its keys in order.
pub add-entries :
    (key value : ℕ) (t : Tree)
    → IsOrdered t
    → IsOrdered (add key value t) × Splits (entries (add key value t)) (entries t) key value
add-entries key value t o = (add-IsOrdered key value t o, add-Splits key value t)

-- What taking an entry out comes to: the value of an entry with the least of the keys asked for, and
-- the container without that entry; or NULL_VAL and the container as it was, if no key is asked for.
abbrev pub TakesLeast : Bool → ℕ → Tree → ℕ × Tree → Type 0
TakesLeast g key t (v, t') =
    IsOrdered t'
    × (((k : ℕ) × Fits g key k
          × Splits (entries t) (entries t') k v
          × AllKeys (λ j. Fits g key j → k ≤ j) t)
        ⊎ (AllKeys (λ j. ¬ Fits g key j) t × (v ≡ null_val) × (t' ≡ t)))

found_least :
    (g : Bool) (key : ℕ) (t : Tree) (found : Option NodePath)
    → IsOrdered t
    → Finds g key t found
    → TakesLeast g key t (take_out found t)
found_least g key t none o h = (o, inr (h, refl, refl))
found_least g key t (some p) o (k, v, at, fits, least) = (
  remove-IsOrdered p t o,
  inl (
    k,
    fits,
    subst (Splits (entries t) (entries (remove p t)) k) (sym (value_at_lem p t k v at))
        (remove-Splits p t k v at),
    least,
  ),
)

-- In an ordered container bst_get_rm_eq (where `g` is false) takes out an entry with the key, and
-- bst_get_rm_ge (where it is true) one with the least key that is not less; if there is none they
-- return NULL_VAL and change nothing. The container stays ordered.
pub get_rm-TakesLeast :
    (g : Bool) (key : ℕ) (t : Tree) → IsOrdered t → TakesLeast g key t (get_rm key g t)
unfolding get_rm
get_rm-TakesLeast g key t o = found_least g key t (find_node key g t) o (find_node-Finds g key t o)
