-- ===== src/Btt/Tests.antt =====
-- A small arena: three pre-map LBAs of 8 bytes in blocks of 256 bytes, and two lanes.
use nvml.Base.{
  ℕ, zero, suc, ◌+◌, ◌*◌, ◌^◌, ◌<◌, ◌≡◌, ◌≢◌, refl, sym, ◌∙◌, inl, List, [], ◌∷◌, ◌++◌, true, false,
  replicate, arith,
}
use nvml.Base.Memory.{Mem, store, get32, le32, load}
use nvml.Base.Outcome.{ok}
use nvml.Namespace.{nsread, nswrite, crash_after}
use nvml.Btt.{Btt, Arena, Dev, Flog, flog_at}
use nvml.Btt.Entry.{
  error_entry, entry_lba, entry_flags, normal, map_entry_is_initial, map_entry_is_error,
  map_entry_is_zero_or_initial,
}
use nvml.Btt.Device.{dev_read, dev_write}
use nvml.Btt.FreeList.{
  nseq, flog_update, read_flogs, read_pairs, read_flog_pair, use_pair, current_flog, complete_flog,
  invalid_lba,
}
use nvml.Btt.Map.{map_lock, map_unlock}
use nvml.Btt.Block.{write_block, read_block, read_loop, being_read, data_block_off}
use nvml.Btt.View.{IsLaidOut, IsConsistent, PairAt, block_of, free_of}
use nvml.Btt.Stores.{new_entry}
use nvml.Btt.Crash.Atomic.{IsAtomic, write_block-IsAtomic}
use nvml.Btt.Crash.Restart.{restart}
use nvml.Btt.Overflow.{data_block_off_alias}
use nvml.Btt.RoundTrip.{read_block-write_block}

abbrev first_flog : Flog
first_flog = record { lba = 0; old_map = 0x80000003; new_map = 0x80000003; seq = 1 }

abbrev second_flog : Flog
second_flog = record { lba = 0; old_map = 0x80000004; new_map = 0x80000004; seq = 1 }

abbrev flog_bytes : Flog → List ℕ
flog_bytes fl = le32 fl.lba ++ (le32 fl.old_map ++ (le32 fl.new_map ++ le32 fl.seq))

-- Blocks 0 to 4 at 0, the map at 1280, the flog at 1344.
abbrev pub media : Mem
media = store (store (λ x. 0) 1344 (flog_bytes first_flog)) 1408 (flog_bytes second_flog)

abbrev pub arena : Arena
arena = record {
  flags = 0;
  external_nlba = 3;
  internal_lbasize = 256;
  internal_nlba = 5;
  startoff = 0;
  dataoff = 0;
  mapoff = 1280;
  flogoff = 1344;
  nextoff = 0;
  flogs =
      record { flog = first_flog; entry0 = 1344; entry1 = 1360; next = 1 }
      ∷ record { flog = second_flog; entry0 = 1408; entry1 = 1424; next = 1 }
      ∷ [];
  rtt = error_entry ∷ error_entry ∷ [];
}

abbrev pub btt : Btt
btt = record {
  nlane = 2;
  laidout = true;
  parent_uuid = [];
  rawsize = 1472;
  lbasize = 8;
  nfree = 2;
  nlba = 3;
  narena = 1;
  arenas = arena ∷ [];
}

abbrev pub dev : Dev
dev = record {
  ns = record { mem = media; datasize = 1472; is_zeroed = true; journal = [] };
  arena = arena;
}

abbrev text : List ℕ
text = 1 ∷ 2 ∷ 3 ∷ 4 ∷ 5 ∷ 6 ∷ 7 ∷ 8 ∷ []

-- A write by lane 1, read back by lane 0; the other blocks still read as zeros.
write_runs :
    let d' = (write_block btt 1 2 text dev).1 in
    ((read_block btt 0 2 d').0 ≡ ok text) × ((read_block btt 0 1 d').0 ≡ ok (replicate 8 0))
unfolding write_block read_block read_loop being_read dev_read dev_write nsread nswrite map_lock
    map_unlock flog_update nseq entry_lba entry_flags normal map_entry_is_initial map_entry_is_error
    map_entry_is_zero_or_initial load get32 store
write_runs = (refl, refl)

-- Opened again after the flog entry is written and before the map entry is, the namespace has the
-- new data.
recovery_runs :
    let left = crash_after media (write_block btt 1 2 text dev).1.ns.journal 3 0 in
    let (r, e) = read_flogs btt 0 (restart dev left) in
    (r ≡ ok tt) × ((read_block btt 0 2 e).0 ≡ ok text)
unfolding write_block read_block read_loop being_read dev_read dev_write nsread nswrite map_lock
    map_unlock flog_update nseq entry_lba entry_flags normal map_entry_is_initial map_entry_is_error
    crash_after map_entry_is_zero_or_initial load get32 store read_flogs read_pairs read_flog_pair
    use_pair current_flog complete_flog invalid_lba
recovery_runs = (refl, refl)

pub dev-IsLaidOut : IsLaidOut btt arena 1472
dev-IsLaidOut = omega arith

first_pair : PairAt 3 media 1344 (flog_at arena 0)
unfolding get32 store
first_pair = record {
  first = refl;
  second = refl;
  next_bit = omega arith;
  current = record { lba_at = refl; old_at = refl; new_at = refl; seq_at = refl };
  seq_pos = omega arith;
  seq_le = omega arith;
  stale = inl refl;
  lba_valid = omega arith;
  stale_valid = omega arith;
}

second_pair : PairAt 3 media 1408 (flog_at arena 1)
unfolding get32 store
second_pair = record {
  first = refl;
  second = refl;
  next_bit = omega arith;
  current = record { lba_at = refl; old_at = refl; new_at = refl; seq_at = refl };
  seq_pos = omega arith;
  seq_le = omega arith;
  stale = inl refl;
  lba_valid = omega arith;
  stale_valid = omega arith;
}

pairs_hold : (k : ℕ) → k < 2 → PairAt 3 media (1344 + 64 * k) (flog_at arena k)
pairs_hold zero h = first_pair
pairs_hold (suc zero) h = second_pair
pairs_hold (suc (suc k)) h = absurd (omega arith)

block_number : (i : ℕ) → i < 3 → block_of arena media i ≡ i
unfolding get32 store
block_number zero h = refl
block_number (suc zero) h = refl
block_number (suc (suc zero)) h = refl
block_number (suc (suc (suc i))) h = absurd (omega arith)

free_number : (k : ℕ) → k < 2 → free_of arena k ≡ 3 + k
free_number zero h = refl
free_number (suc zero) h = refl
free_number (suc (suc k)) h = absurd (omega arith)

pub dev-IsConsistent : IsConsistent btt arena media
dev-IsConsistent = record {
  lanes = refl;
  pairs = pairs_hold;
  mapped_in = λ i h. rw (block_number i h) (omega arith);
  free_in = λ k h. rw (free_number k h) (omega arith);
  mapped_apart = λ i j h l e. sym (block_number i h) ∙ e ∙ block_number j l;
  free_apart = λ k l h h' e. omega (arith, free_number k h, free_number l h');
  mapped_not_free = λ i k h l e. omega (arith, block_number i h, free_number k l);
}

nobody_reads : being_read (error_entry ∷ error_entry ∷ []) (new_entry arena 1) ≡ false
unfolding being_read
nobody_reads = refl

write_block-IsAtomic_example :
    IsAtomic btt dev 2 text 0 (crash_after media (write_block btt 1 2 text dev).1.ns.journal 2 1)
write_block-IsAtomic_example =
    write_block-IsAtomic btt dev 1 2 text dev-IsLaidOut dev-IsConsistent (omega arith) (omega arith)
      refl 0 (omega arith) refl nobody_reads refl 2 1

-- Blocks 0 and 2 ^ 24 of 256 bytes each.
data_block_off_alias_example : data_block_off arena (3 + 2 ^ 24) ≡ data_block_off arena 3
data_block_off_alias_example = data_block_off_alias arena 3 (2 ^ 24) refl

-- What is written is read back, by another lane.
read_block-write_block_example :
    let (r, d') = write_block btt 1 2 text dev in
    (read_block btt 0 2 d' ≡ (ok text, d'))
    × ((j : ℕ)
        → j < arena.external_nlba
        → j ≢ 2
        → (read_block btt 0 j d').0 ≡ (read_block btt 0 j dev).0)
read_block-write_block_example =
    read_block-write_block btt dev 1 2 text dev-IsLaidOut dev-IsConsistent (omega arith)
      (omega arith) refl refl nobody_reads 0 refl
