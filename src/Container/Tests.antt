-- ===== src/Container/Tests.antt =====
-- A container of four entries, two of them with one key.
use nvml.Base.{◌≡◌, refl, true, arith}
use nvml.Container.{
  Tree, leaf, node, add, find_from, find_node, get_rm, get_rm_ge, minimum, without_minimum,
  remove_root, remove, value_at,
}
use nvml.Container.Order.{entries, IsOrdered, Splits}
use nvml.Container.Laws.{TakesLeast, get_rm-TakesLeast, add-entries}

abbrev blocks : Tree
blocks = node (node leaf 4 40 leaf) 8 80 (node (node leaf 8 81 leaf) 16 160 leaf)

blocks-IsOrdered : IsOrdered blocks
blocks-IsOrdered = omega arith

-- Adding entries one by one builds it.
add_runs : add 8 81 (add 4 40 (add 16 160 (add 8 80 leaf))) ≡ blocks
unfolding add
add_runs = refl

-- The least key from 5 on is 8; its node goes, and the other entry with key 8 takes its place.
get_rm_ge_runs : get_rm_ge 5 blocks ≡ (80, node (node leaf 4 40 leaf) 8 81 (node leaf 16 160 leaf))
unfolding get_rm find_node find_from remove remove_root minimum without_minimum value_at
get_rm_ge_runs = refl

get_rm-TakesLeast_example : TakesLeast true 5 blocks (get_rm 5 true blocks)
get_rm-TakesLeast_example = get_rm-TakesLeast true 5 blocks blocks-IsOrdered

add-entries_example :
    IsOrdered (add 5 50 blocks) × Splits (entries (add 5 50 blocks)) (entries blocks) 5 50
add-entries_example = add-entries 5 50 blocks blocks-IsOrdered
