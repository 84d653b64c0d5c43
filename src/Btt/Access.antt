-- ===== src/Btt/Access.antt =====
-- Inside a laid out arena no offset wraps, and no access fails.
use nvml.Base.{ℕ, ◌+◌, ◌*◌, ◌^◌, ◌≤◌, ◌<◌, ◌≡◌, List, [], ◌∷◌, ◌++◌, length, arith}
use nvml.Base.Memory.{load, store}
use nvml.Base.Outcome.{ok}
use nvml.Namespace.{nsread, nswrite}
use nvml.Btt.{Btt, Arena, Dev}
use nvml.Btt.Device.{dev_read, dev_write, map_entry_off}
use nvml.Btt.Block.{data_block_off}
use nvml.Btt.View.{IsLaidOut, block_start}
use native.Mathlib.Nat.{mul-le-mul_right}

-- The device after a store.
abbrev pub stored : Dev → ℕ → List ℕ → Dev
stored d off buf = record d {
  ns = record (d.ns) { mem = store d.ns.mem off buf; journal = d.ns.journal ++ ((off, buf) ∷ []) };
}

pub dev_read_lem :
    (d : Dev) (count off : ℕ)
    → off + count ≤ d.ns.datasize
    → d.ns.datasize < 2 ^ 64
    → dev_read count off d ≡ (ok (load d.ns.mem off count), d)
unfolding dev_read nsread
dev_read_lem d count off h s = ground arith

pub dev_write_lem :
    (d : Dev) (buf : List ℕ) (off : ℕ)
    → off + length buf ≤ d.ns.datasize
    → d.ns.datasize < 2 ^ 64
    → dev_write buf off d ≡ (ok tt, stored d off buf)
unfolding dev_write nswrite
dev_write_lem d buf off h s = ground arith

module _ {b : Btt} {a : Arena} {size : ℕ} (g : IsLaidOut b a size) where
  -- 4 * premap_lba does not wrap, nor does its sum with the offset of the map.
  pub map_entry_off_lem : (i : ℕ) → i < a.external_nlba → map_entry_off a i ≡ a.mapoff + 4 * i
  map_entry_off_lem i h = omega arith

  pub block_end : (n : ℕ) → n < a.internal_nlba → block_start a n + a.internal_lbasize ≤ a.mapoff
  block_end n h = omega (arith, mul-le-mul_right a.internal_lbasize h)

  -- Without the state bits.
  pub data_block_off_lba : (n : ℕ) → n < a.internal_nlba → data_block_off a n ≡ block_start a n
  data_block_off_lba n h = omega (arith, mul-le-mul_right a.internal_lbasize h)

  -- The state bits of a normal entry vanish from the 32-bit product.
  pub data_block_off_entry :
      (n : ℕ) → n < a.internal_nlba → data_block_off a (n + 3 * 2 ^ 30) ≡ block_start a n
  data_block_off_entry n h = omega (arith, mul-le-mul_right a.internal_lbasize h)
