-- ===== src/Btt/Update.antt =====
-- The entry points of src/libpmemblk/btt.c that write: btt_write, btt_set_zero and btt_set_error.
use nvml.Base.{ℕ, List, true, ◌==◌, if◌then◌else◌}
use nvml.Base.Outcome.{Run, pure, fail, einval, ◌>>◌}
use nvml.Btt.Entry.{zero_entry, error_entry}
use nvml.Btt.FreeList.{invalid_lba}
use nvml.Btt.Block.{write_block, setf_block}
use nvml.Btt.Table.{Table, lba_to_arena_lba, at_place}
use nvml.Btt.Layout.{write_layout}

-- The first write through here initializes the metadata layout.
unfoldable pub ensure_layout : ℕ → Run Table (Unit {0})
ensure_layout lane t = if t.btt.laidout then pure tt t else write_layout lane true t

unfoldable pub btt_write : ℕ → ℕ → List ℕ → Run Table (Unit {0})
btt_write lane lba buf t =
    if invalid_lba t.btt lba
    then fail einval t
    else (do
      ensure_layout lane
      λ t'.
          at_place (λ premap. write_block t'.btt lane premap buf) (lba_to_arena_lba t'.btt lba) t')
        t

-- Before there is a layout all blocks read as zeros, and setting one to zero is superfluous.
unfoldable pub map_entry_setf : ℕ → ℕ → ℕ → Run Table (Unit {0})
map_entry_setf lane lba setf t =
    let update = (do
      ensure_layout lane
      λ t'. at_place (λ premap. setf_block premap setf) (lba_to_arena_lba t'.btt lba) t') in
    if invalid_lba t.btt lba
    then fail einval t
    else if t.btt.laidout
    then update t
    else if setf == zero_entry
    then pure tt t
    else update t

abbrev pub btt_set_zero : ℕ → ℕ → Run Table (Unit {0})
btt_set_zero lane lba = map_entry_setf lane lba zero_entry

abbrev pub btt_set_error : ℕ → ℕ → Run Table (Unit {0})
btt_set_error lane lba = map_entry_setf lane lba error_entry
