-- ===== src/Btt/Stores.antt =====
-- The four stores of btt_write: the data, the two halves of the flog entry, the map entry. What
-- the memory holds after each of them.
use nvml.Base.{
  ℕ, ◌+◌, ◌*◌, ◌%◌, ◌^◌, ◌<◌, ◌≤◌, ◌≡◌, ◌⊎◌, refl, sym, ap, ◌∙◌, inl, inr, List, ◌++◌, length,
  arith,
}
use nvml.Base.Memory.{
  Mem, load, store, get32, get32-lt, le32, store-Outside, get32-store-Apart, get32-store,
  get32-store-le32, load-store, load-Agree,
}
use nvml.Base.Outcome.{ok}
use nvml.Btt.{Btt, Arena, FlogRuntime, flog_at}
use nvml.Btt.FreeList.{nseq, next_off, advanced}
use nvml.Btt.Seq.{nseq_cycle}
use nvml.Btt.View.{IsLaidOut, IsConsistent, At, map_word, free_of, block_start, contents}
use nvml.Btt.Access.{block_end}
use nvml.Btt.Steps.{locked}
use nvml.Btt.Touched.{Touched, slot_in}

abbrev pub data_at : Arena → ℕ → ℕ
data_at a lane = block_start a (free_of a lane)

abbrev pub slot_at : Arena → ℕ → ℕ
slot_at a lane = next_off (flog_at a lane)

abbrev pub map_at : Arena → ℕ → ℕ
map_at a i = a.mapoff + 4 * i

abbrev pub new_entry : Arena → ℕ → ℕ
new_entry a lane = free_of a lane + 3 * 2 ^ 30

abbrev pub old_entry : Arena → Mem → ℕ → ℕ
old_entry a m i = locked i (map_word a m i)

abbrev pub next_seq : Arena → ℕ → ℕ
next_seq a lane = nseq (flog_at a lane).flog.seq

-- The entry as a whole.
abbrev pub new_runtime : Arena → Mem → ℕ → ℕ → FlogRuntime
new_runtime a m lane i = advanced (flog_at a lane) i (old_entry a m i) (new_entry a lane)

abbrev pub first_half : Arena → Mem → ℕ → List ℕ
first_half a m i = le32 i ++ le32 (old_entry a m i)

abbrev pub second_half : Arena → ℕ → List ℕ
second_half a lane = le32 (new_entry a lane) ++ le32 (next_seq a lane)

unfoldable pub mem1 : Arena → Mem → ℕ → List ℕ → Mem
mem1 a m lane buf = store m (data_at a lane) buf

unfoldable pub mem2 : Arena → Mem → ℕ → ℕ → List ℕ → Mem
mem2 a m lane i buf = store (mem1 a m lane buf) (slot_at a lane) (first_half a m i)

unfoldable pub mem3 : Arena → Mem → ℕ → ℕ → List ℕ → Mem
mem3 a m lane i buf = store (mem2 a m lane i buf) (slot_at a lane + 8) (second_half a lane)

unfoldable pub mem4 : Arena → Mem → ℕ → ℕ → List ℕ → Mem
mem4 a m lane i buf = store (mem3 a m lane i buf) (map_at a i) (le32 (new_entry a lane))

module _ (b : Btt) (a : Arena) (size : ℕ) (g : IsLaidOut b a size) (m : Mem) (lane i : ℕ)
    (buf : List ℕ) (c : IsConsistent b a m) (lane_in : lane < b.nfree) (i_in : i < a.external_nlba)
    (full : length buf ≡ b.lbasize) where
  abbrev pub TouchedBy : Mem → Type 0
  TouchedBy m' = Touched b a (free_of a lane) (slot_at a lane) i m m'

  -- The three regions, in their order.
  pub regions :
      ((data_at a lane) + b.lbasize ≤ a.mapoff)
      × ((map_at a i) + 4 ≤ a.flogoff)
      × (a.flogoff ≤ (slot_at a lane))
      × ((slot_at a lane) + 16 ≤ size)
  regions = ground (
    arith,
    slot_in b a size g m m lane i c lane_in i_in (λ x p q r. refl),
    block_end g (free_of a lane) (c.free_in lane lane_in),
  )

  store_touched :
      (m' : Mem) (off : ℕ) (bs : List ℕ)
      → TouchedBy m'
      → (((data_at a lane) ≤ off) × (off + length bs ≤ (data_at a lane) + b.lbasize))
        ⊎ (((slot_at a lane) ≤ off) × (off + length bs ≤ (slot_at a lane) + 16))
        ⊎ (((map_at a i) ≤ off) × (off + length bs ≤ (map_at a i) + 4))
      → TouchedBy (store m' off bs)
  store_touched m' off bs t inside x p q r = store-Outside m' off bs x (omega arith) ∙ t x p q r

  pub data_touched : (bs : List ℕ) → length bs ≤ b.lbasize → TouchedBy (store m (data_at a lane) bs)
  data_touched bs h = store_touched m (data_at a lane) bs (λ x p q r. refl) (inl (omega arith))

  pub touched1 : TouchedBy (mem1 a m lane buf)
  unfolding mem1
  touched1 = data_touched buf (omega arith)

  pub slot_touched :
      (m' : Mem) (off : ℕ) (bs : List ℕ)
      → TouchedBy m'
      → (slot_at a lane) ≤ off
      → off + length bs ≤ (slot_at a lane) + 16
      → TouchedBy (store m' off bs)
  slot_touched m' off bs t lo hi = store_touched m' off bs t (inr (inl (lo, hi)))

  pub touched2 : TouchedBy (mem2 a m lane i buf)
  unfolding mem2
  touched2 =
      slot_touched (mem1 a m lane buf) (slot_at a lane) (first_half a m i) touched1 (omega arith)
        (omega arith)

  pub touched3 : TouchedBy (mem3 a m lane i buf)
  unfolding mem3
  touched3 =
      slot_touched (mem2 a m lane i buf) ((slot_at a lane) + 8) (second_half a lane) touched2
        (omega arith) (omega arith)

  pub touched4 : TouchedBy (mem4 a m lane i buf)
  unfolding mem4
  touched4 =
      store_touched (mem3 a m lane i buf) (map_at a i) (le32 (new_entry a lane)) touched3
        (inr (inr (omega arith)))

  new_small : (new_entry a lane) < 2 ^ 32
  new_small = omega arith

  old_small : (old_entry a m i) < 2 ^ 32
  old_small = ground (arith, get32-lt m (map_at a i), g)

  seq_small : (next_seq a lane) ≤ 3
  seq_small =
      let p = c.pairs lane lane_in in (nseq_cycle (flog_at a lane).flog.seq p.seq_pos p.seq_le).1

  -- The map entry is the old one until the last store.
  pub map1 : map_word a (mem1 a m lane buf) i ≡ map_word a m i
  unfolding mem1
  map1 = get32-store-Apart m (data_at a lane) buf (map_at a i) (omega (arith, regions))

  pub map2 : map_word a (mem2 a m lane i buf) i ≡ map_word a m i
  unfolding mem2
  map2 =
      get32-store-Apart (mem1 a m lane buf) (slot_at a lane) (first_half a m i) (map_at a i)
        (omega (arith, regions))
      ∙ map1

  pub map3 : map_word a (mem3 a m lane i buf) i ≡ map_word a m i
  unfolding mem3
  map3 =
      get32-store-Apart (mem2 a m lane i buf) ((slot_at a lane) + 8) (second_half a lane)
        (map_at a i) (omega (arith, regions))
      ∙ map2

  pub map4 : map_word a (mem4 a m lane i buf) i ≡ (new_entry a lane)
  unfolding mem4
  map4 = get32-store-le32 (mem3 a m lane i buf) (map_at a i) (new_entry a lane) new_small

  -- The entry under replacement, word by word.
  pub slot1 :
      (o : ℕ)
      → (slot_at a lane) ≤ o
      → o + 4 ≤ (slot_at a lane) + 16
      → get32 (mem1 a m lane buf) o ≡ get32 m o
  unfolding mem1
  slot1 o lo hi = get32-store-Apart m (data_at a lane) buf o (omega (arith, regions))

  pub slot2_lba : get32 (mem2 a m lane i buf) (slot_at a lane) ≡ i
  unfolding mem2
  slot2_lba = omega (
    arith,
    get32-store (mem1 a m lane buf) (slot_at a lane) (first_half a m i) 0 (slot_at a lane)
        (omega arith) (omega arith),
    g,
  )

  pub slot2_old : get32 (mem2 a m lane i buf) ((slot_at a lane) + 4) ≡ (old_entry a m i)
  unfolding mem2
  slot2_old = omega (
    arith,
    get32-store (mem1 a m lane buf) (slot_at a lane) (first_half a m i) 4 ((slot_at a lane) + 4)
        (omega arith) (omega arith),
    old_small,
  )

  pub slot2_seq :
      get32 (mem2 a m lane i buf) ((slot_at a lane) + 12) ≡ get32 m ((slot_at a lane) + 12)
  unfolding mem2
  slot2_seq =
      get32-store-Apart (mem1 a m lane buf) (slot_at a lane) (first_half a m i)
        ((slot_at a lane) + 12) (omega arith)
      ∙ slot1 ((slot_at a lane) + 12) (omega arith) (omega arith)

  pub slot3 : At (mem3 a m lane i buf) (slot_at a lane) (new_runtime a m lane i).flog
  unfolding mem3
  slot3 = record {
    lba_at =
        get32-store-Apart (mem2 a m lane i buf) ((slot_at a lane) + 8) bs (slot_at a lane)
          (omega arith)
        ∙ slot2_lba;
    old_at =
        get32-store-Apart (mem2 a m lane i buf) ((slot_at a lane) + 8) bs ((slot_at a lane) + 4)
          (omega arith)
        ∙ slot2_old;
    new_at = omega (
      arith,
      get32-store (mem2 a m lane i buf) ((slot_at a lane) + 8) bs 0 ((slot_at a lane) + 8)
          (omega arith) (omega arith),
      new_small,
    );
    seq_at = omega (
      arith,
      get32-store (mem2 a m lane i buf) ((slot_at a lane) + 8) bs 4 ((slot_at a lane) + 12)
          (omega arith) (omega arith),
      seq_small,
    );
  }
    where
      bs : List ℕ
      bs = (second_half a lane)

  pub slot4 : At (mem4 a m lane i buf) (slot_at a lane) (new_runtime a m lane i).flog
  unfolding mem4
  slot4 = record {
    lba_at = kept (slot_at a lane) (omega arith) (omega arith) ∙ slot3.lba_at;
    old_at = kept ((slot_at a lane) + 4) (omega arith) (omega arith) ∙ slot3.old_at;
    new_at = kept ((slot_at a lane) + 8) (omega arith) (omega arith) ∙ slot3.new_at;
    seq_at = kept ((slot_at a lane) + 12) (omega arith) (omega arith) ∙ slot3.seq_at;
  }
    where
      kept :
          (o : ℕ)
          → (slot_at a lane) ≤ o
          → o + 4 ≤ (slot_at a lane) + 16
          → get32 (mem4 a m lane i buf) o ≡ get32 (mem3 a m lane i buf) o
      kept o lo hi =
          get32-store-Apart (mem3 a m lane i buf) (map_at a i) (le32 (new_entry a lane)) o
            (omega (arith, regions))

  -- The data are in the block that the new map entry names.
  data4 : load (mem4 a m lane i buf) (data_at a lane) b.lbasize ≡ buf
  unfolding mem1 mem2 mem3 mem4
  data4 =
      load-Agree (mem4 a m lane i buf) (mem1 a m lane buf) (data_at a lane) b.lbasize (λ x lo hi.
        store-Outside (mem3 a m lane i buf) (map_at a i) (le32 (new_entry a lane)) x
          (omega (arith, regions))
        ∙ store-Outside (mem2 a m lane i buf) ((slot_at a lane) + 8) (second_half a lane) x
            (omega (arith, regions))
        ∙ store-Outside (mem1 a m lane buf) (slot_at a lane) (first_half a m i) x
            (omega (arith, regions)))
      ∙ ap (load (mem1 a m lane buf) (data_at a lane)) (sym full)
      ∙ load-store m (data_at a lane) buf

  pub contents4 : contents b a (mem4 a m lane i buf) i ≡ ok buf
  unfolding contents
  contents4 =
      let named : (new_entry a lane) % 2 ^ 30 ≡ free_of a lane = omega arith in
      rw map4 (
        ground
          (arith, ap (λ t. load (mem4 a m lane i buf) (block_start a t) b.lbasize) named, data4))
