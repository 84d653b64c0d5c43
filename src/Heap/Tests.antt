-- ===== src/Heap/Tests.antt =====
-- A pool of one zone whose chunk 0 is used, has 1 unit and is referred to at the offset 2000000, and
-- whose chunk 1, of 9 units, is free and in the bucket.
use nvml.Base.{if_false, ◌≡◌, ◌⊎◌, ◌==◌, refl, [], true, false, inl, inr, if◌then◌else◌, arith}
use nvml.Base.Memory.{Mem, get32}
use nvml.Container.{leaf, node, find_from, find_node, get_rm, remove, remove_root, value_at}
use nvml.Bucket.{calc_units}
use nvml.Heap.{apply, persist, slot_stored, malloc, BackendPool, Heap, Zone, empty_slot, header}
use nvml.Heap.Chunk.{data_offset, uid_chunk_idx, uid_zone_idx}
use nvml.Heap.Backend.{
  guarded, set_guard, clear_guard, init_bucket_obj, split_chunk, set_chunk_size, write_chunk_header,
  mark_allocated, set_alloc_ptr, set_chunk_flag, add_chunk, add_block, is_used, base_header,
  pointer, with_used,
}
use nvml.Checksum.{put, words, fletcher, checksum, insert_checksum, verify_checksum}
use nvml.Heap.Zones.{get_max_zones, max_zones_from}
use nvml.Heap.Open.{verify_header, can_open_pool, with_state, fresh_header, open_pmem_storage}
use nvml.Heap.Reboot.{IsInterrupted, open-IsAtomic}
use nvml.Heap.Settle.{IsSettled, IsHalfGuarded}
use nvml.Heap.Alloc.{alloc_from_bucket, get_block, take_block, pmalloc, pfree, prealloc}
use nvml.Heap.Crash.{Leaves, nothing_more, done}
use nvml.Heap.Settle.{recovered}
use nvml.Heap.Serve.{Offers, zone_of, chunk_of, rest_of, handed_out}
use nvml.Heap.Atomic.{Serves, IsAtomic, pmalloc-IsAtomic}
use nvml.Heap.Release.{Refers, pfree-IsAtomic}
use nvml.Heap.Resize.{Grows, prealloc-Leaves_free}

abbrev one_zone : Zone
one_zone = record {
  backup_header = [];
  chunk_header = λ c. if c == 0 then with_used (base_header 50160 1) else base_header 50160 9;
}

-- The bytes of data_offset 0 0, 1083376, at the offset 2000000.
abbrev one_pointer : Mem
one_pointer a =
    if a == 2000000 then 240 else if a == 2000001 then 135 else if a == 2000002 then 16 else 0

abbrev one_used : Heap
one_used = record {
  pool = record {
    primary_header = [];
    info_slot = λ i. empty_slot;
    zone = λ z. one_zone;
    content = one_pointer;
  };
  pool_size = 10000000;
  max_zone = 1;
  zones_exhausted = 1;
  bucket = record { unit_size = 262144; objects = node leaf 281474976710665 65536 leaf };
  events = [];
}

refers : Refers 3 2000000 0 0 one_used
unfolding data_offset get32
refers = record {
  unstored = refl;
  slot = refl;
  word = refl;
  in_zones = omega arith;
  in_chunks = omega arith;
  marked = refl;
  used = refl;
}

-- A request for 600000 bytes comes to 2 units, which are split off the chunk 1.
identifier : handed_out one_used 600000 ≡ 65536
unfolding calc_units get_rm find_node find_from remove remove_root value_at
identifier = refl

Offers-aside : Offers 2000000 600000 one_used
unfolding calc_units get_rm find_node find_from remove remove_root value_at uid_chunk_idx
    uid_zone_idx data_offset
Offers-aside = record {
  is_object = λ e. omega arith;
  some_units = omega arith;
  large = omega arith;
  inside = omega arith;
  unused = refl;
  apart = inl (omega arith);
}

Offers-inside : Offers 1083400 600000 one_used
unfolding calc_units get_rm find_node find_from remove remove_root value_at uid_chunk_idx
    uid_zone_idx data_offset
Offers-inside = record {
  is_object = λ e. omega arith;
  some_units = omega arith;
  large = omega arith;
  inside = omega arith;
  unused = refl;
  apart = inr (omega arith);
}

serves : Serves 3 1083400 600000 one_used
unfolding get32
serves = record { unstored = refl; slot = refl; null = refl; offers = Offers-inside }

pmalloc-IsAtomic_example :
    IsAtomic one_used 3 1083400
      (zone_of one_used 600000)
      (chunk_of one_used 600000)
      (rest_of one_used 600000)
      (data_offset (zone_of one_used 600000) (chunk_of one_used 600000))
      true
      (pmalloc 3 1083400 600000 one_used)
pmalloc-IsAtomic_example = pmalloc-IsAtomic 3 1083400 600000 one_used serves

pfree-IsAtomic_example : IsAtomic one_used 3 2000000 0 0 0 0 false (pfree 3 2000000 one_used)
pfree-IsAtomic_example = pfree-IsAtomic 3 2000000 0 0 one_used refers

grows : Grows 3 2000000 600000 0 0 one_used
unfolding calc_units get_rm find_node find_from remove remove_root value_at uid_chunk_idx
    uid_zone_idx data_offset
grows = record {
  refers = refers;
  positive = λ e. omega arith;
  larger = omega arith;
  offers = Offers-aside;
  beside = inr (λ e. omega arith, λ e. omega arith);
  apart = inl (omega arith);
}

prealloc-Leaves_free_example :
    (p : BackendPool) × Leaves one_used.pool (prealloc 3 2000000 600000 one_used).events p
    × (pointer (recovered one_used 3 p) 2000000 ≡ data_offset 0 0)
    × (is_used (header (recovered one_used 3 p) 0 0) ≡ false)
prealloc-Leaves_free_example = prealloc-Leaves_free 3 2000000 600000 0 0 one_used grows

-- The same pool with a header that says it is open.
abbrev running : Heap
running = record one_used {
  pool = record one_used.pool { primary_header = with_state 1 (fresh_header 16777216) };
  pool_size = 16777216;
}

running-Serves : Serves 3 1083400 600000 running
unfolding get32
running-Serves = record {
  unstored = refl;
  slot = refl;
  null = refl;
  offers = record {
    is_object = offers_there.is_object;
    some_units = offers_there.some_units;
    large = offers_there.large;
    inside = offers_there.inside;
    unused = offers_there.unused;
    apart = offers_there.apart;
  };
}
  where
    offers_there : Offers 1083400 600000 one_used
    offers_there = Offers-inside

-- A power failure after the first store of the allocation, that of the slot.
abbrev failed : BackendPool
failed = apply (slot_stored 3 (guarded malloc 1083400 0 empty_slot)) running.pool

first_store : Leaves running.pool (pmalloc 3 1083400 600000 running).events failed
unfolding pmalloc set_guard clear_guard alloc_from_bucket get_block take_block init_bucket_obj
    split_chunk set_chunk_size write_chunk_header mark_allocated set_alloc_ptr set_chunk_flag
    add_chunk add_block persist apply calc_units get_rm find_node find_from remove remove_root
    value_at uid_chunk_idx uid_zone_idx get32
first_store = done nothing_more

interrupted : IsInterrupted 3 (record running { pool = failed })
unfolding verify_header can_open_pool with_state fresh_header insert_checksum verify_checksum put
    checksum words fletcher apply get_max_zones max_zones_from
interrupted = record {
  valid = refl;
  compatible = refl;
  was_open = refl;
  zones = refl;
  in_slots = omega arith;
  others = λ j ne. if_false (j == 3) _ empty_slot (ground arith);
}

open-IsAtomic_example :
    let (opened, k) = open_pmem_storage (record running { pool = failed }) in
    IsHalfGuarded running.pool 3 1083400
      (zone_of running 600000)
      (chunk_of running 600000)
      (rest_of running 600000)
      (data_offset (zone_of running 600000) (chunk_of running 600000))
      failed
    ⊎ ((opened ≡ true)
        × IsSettled running.pool 3 1083400
            (zone_of running 600000)
            (chunk_of running 600000)
            (rest_of running 600000)
            (data_offset (zone_of running 600000) (chunk_of running 600000))
            k.pool)
open-IsAtomic_example =
    open-IsAtomic running (pmalloc 3 1083400 600000 running) 3 1083400 (zone_of running 600000)
      (chunk_of running 600000) (rest_of running 600000)
      (data_offset (zone_of running 600000) (chunk_of running 600000)) true failed
      (pmalloc-IsAtomic 3 1083400 600000 running running-Serves) first_store interrupted
