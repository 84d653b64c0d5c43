-- ===== src/Btt/Crash/Fate.antt =====
-- What a power failure during btt_write leaves: a flog entry that does not count yet, one that
-- counts beside the old map entry, or the finished write.
use nvml.Base.{
  ℕ, zero, suc, ◌+◌, ◌*◌, ◌<◌, ◌≤◌, ◌≡◌, ◌⊎◌, refl, ◌∙◌, inl, inr, List, [], ◌∷◌, length, take,
  take_all, length-take, arith,
}
use mathlib.Core.Path.{fun_ext}
use nvml.Base.Memory.{Mem, store, get32, le32, store-Outside, get32-store, get32-store-Apart}
use nvml.Namespace.{Store, crash_after}
use nvml.Btt.{Btt, Arena}
use nvml.Btt.View.{IsLaidOut, IsConsistent, map_word, free_of}
use nvml.Btt.Stores.{
  data_at, slot_at, map_at, new_entry, first_half, second_half, mem1, mem2, mem3, mem4, regions,
  data_touched, slot_touched, touched1, touched2, map1, map2, slot1, slot2_lba, slot2_seq,
}
use nvml.Btt.Touched.{Touched}

-- The stores of a write.
abbrev pub stores : Arena → Mem → ℕ → ℕ → List ℕ → List Store
stores a m lane i buf =
    (data_at a lane, buf)
    ∷ (slot_at a lane, first_half a m i)
    ∷ (slot_at a lane + 8, second_half a lane)
    ∷ (map_at a i, le32 (new_entry a lane))
    ∷ []

pub record IsUncommitted (b : Btt) (a : Arena) (m : Mem) (lane i : ℕ) (m' : Mem) : Type 0 where
  pub touched : Touched b a (free_of a lane) (slot_at a lane) i m m'
  pub unmapped : map_word a m' i ≡ map_word a m i
  pub valid : get32 m' (slot_at a lane) < a.external_nlba
  pub seq : get32 m' (slot_at a lane + 12) ≡ get32 m (slot_at a lane + 12)

store_nothing : (m : Mem) (off : ℕ) → store m off [] ≡ m
store_nothing m off = fun_ext (λ x. store-Outside m off [] x (omega arith))

module _ (b : Btt) (a : Arena) (size : ℕ) (g : IsLaidOut b a size) (m : Mem) (lane i : ℕ)
    (buf : List ℕ) (c : IsConsistent b a m) (lane_in : lane < b.nfree) (i_in : i < a.external_nlba)
    (full : length buf ≡ b.lbasize) where
  abbrev Fate : Mem → Type 0
  Fate m' = IsUncommitted b a m lane i m' ⊎ (m' ≡ mem3 a m lane i buf) ⊎ (m' ≡ mem4 a m lane i buf)

  regions_lem :
      (data_at a lane + b.lbasize ≤ a.mapoff)
      × (map_at a i + 4 ≤ a.flogoff)
      × (a.flogoff ≤ slot_at a lane)
      × (slot_at a lane + 16 ≤ size)
  regions_lem = regions b a size g m lane i buf c lane_in i_in full

  -- During the first store.
  data_torn :
      (bs : List ℕ)
      → length bs ≤ b.lbasize
      → IsUncommitted b a m lane i (store m (data_at a lane) bs)
  data_torn bs h = record {
    touched = data_touched b a size g m lane i buf c lane_in i_in full bs h;
    unmapped = get32-store-Apart m (data_at a lane) bs (map_at a i) (omega (arith, regions_lem));
    valid =
        rw (get32-store-Apart m (data_at a lane) bs (slot_at a lane) (omega (arith, regions_lem)))
          (c.pairs lane lane_in).stale_valid;
    seq =
        get32-store-Apart m (data_at a lane) bs (slot_at a lane + 12) (omega (arith, regions_lem));
  }

  -- During the second store: its words are the LBA and the old map entry.
  first_torn :
      (bs : List ℕ)
      → length bs ≤ 8
      → get32 (store (mem1 a m lane buf) (slot_at a lane) bs) (slot_at a lane) < a.external_nlba
      → IsUncommitted b a m lane i (store (mem1 a m lane buf) (slot_at a lane) bs)
  first_torn bs h ok_lba = record {
    touched =
        slot_touched b a size g m lane i buf c lane_in i_in full (mem1 a m lane buf)
          (slot_at a lane) bs (touched1 b a size g m lane i buf c lane_in i_in full) (omega arith)
          (omega arith);
    unmapped =
        get32-store-Apart (mem1 a m lane buf) (slot_at a lane) bs (map_at a i)
          (omega (arith, regions_lem))
        ∙ map1 b a size g m lane i buf c lane_in i_in full;
    valid = ok_lba;
    seq =
        get32-store-Apart (mem1 a m lane buf) (slot_at a lane) bs (slot_at a lane + 12)
          (omega arith)
        ∙ slot1 b a size g m lane i buf c lane_in i_in full (slot_at a lane + 12) (omega arith)
            (omega arith);
  }

  -- During the third store, before its second word, which is the sequence number.
  second_torn :
      (bs : List ℕ)
      → length bs ≤ 4
      → IsUncommitted b a m lane i (store (mem2 a m lane i buf) (slot_at a lane + 8) bs)
  second_torn bs h = record {
    touched =
        slot_touched b a size g m lane i buf c lane_in i_in full (mem2 a m lane i buf)
          (slot_at a lane + 8) bs (touched2 b a size g m lane i buf c lane_in i_in full)
          (omega arith) (omega arith);
    unmapped =
        get32-store-Apart (mem2 a m lane i buf) (slot_at a lane + 8) bs (map_at a i)
          (omega (arith, regions_lem))
        ∙ map2 b a size g m lane i buf c lane_in i_in full;
    valid =
        rw
          (
            get32-store-Apart (mem2 a m lane i buf) (slot_at a lane + 8) bs (slot_at a lane)
                (omega arith),
            slot2_lba b a size g m lane i buf c lane_in i_in full,
          )
          i_in;
    seq =
        get32-store-Apart (mem2 a m lane i buf) (slot_at a lane + 8) bs (slot_at a lane + 12)
          (omega arith)
        ∙ slot2_seq b a size g m lane i buf c lane_in i_in full;
  }

  lba_written :
      get32 (store (mem1 a m lane buf) (slot_at a lane) (first_half a m i)) (slot_at a lane) ≡ i
  unfolding mem2
  lba_written = slot2_lba b a size g m lane i buf c lane_in i_in full

  lba_torn :
      (t : ℕ)
      → get32
          (store (mem1 a m lane buf) (slot_at a lane) (take (4 * t) (first_half a m i)))
          (slot_at a lane)
        < a.external_nlba
  lba_torn zero =
      rw
        (
          store_nothing (mem1 a m lane buf) (slot_at a lane),
          slot1 b a size g m lane i buf c lane_in i_in full (slot_at a lane) (omega arith)
              (omega arith),
        )
        (c.pairs lane lane_in).stale_valid
  lba_torn (suc zero) = omega (
    arith,
    get32-store (mem1 a m lane buf) (slot_at a lane) (le32 i) 0 (slot_at a lane) (omega arith)
        (omega arith),
    g,
  )
  lba_torn (suc (suc t)) =
      rw (take_all (4 * suc (suc t)) (first_half a m i) (omega arith)) (rw lba_written i_in)

  second_cases :
      (t : ℕ)
      → Fate (store (mem2 a m lane i buf) (slot_at a lane + 8) (take (4 * t) (second_half a lane)))
  unfolding mem3
  second_cases zero = inl (second_torn [] (omega arith))
  second_cases (suc zero) = inl (second_torn (le32 (new_entry a lane)) (omega arith))
  second_cases (suc (suc t)) =
      rw (take_all (4 * suc (suc t)) (second_half a lane) (omega arith)) (inr (inl refl))

  map_cases :
      (t : ℕ)
      → Fate (store (mem3 a m lane i buf) (map_at a i) (take (4 * t) (le32 (new_entry a lane))))
  unfolding mem4
  map_cases zero = inr (inl (store_nothing (mem3 a m lane i buf) (map_at a i)))
  map_cases (suc t) =
      rw (take_all (4 * suc t) (le32 (new_entry a lane)) (omega arith)) (inr (inr refl))

  -- Wherever the power fails, it leaves one of the three.
  pub crash_cases : (n t : ℕ) → Fate (crash_after m (stores a m lane i buf) n t)
  unfolding crash_after mem1 mem2 mem3 mem4
  crash_cases zero t = inl (data_torn (take (4 * t) buf) (omega (arith, length-take (4 * t) buf)))
  crash_cases (suc zero) t = inl (
      first_torn (take (4 * t) (first_half a m i))
        (omega (arith, length-take (4 * t) (first_half a m i))) (lba_torn t))
  crash_cases (suc (suc zero)) t = second_cases t
  crash_cases (suc (suc (suc zero))) t = map_cases t
  crash_cases (suc (suc (suc (suc n)))) t = inr (inr refl)
