-- ===== src/Btt/View.antt =====
-- What an arena stands for: the contents of its blocks, and the condition under which the map and
-- the free lists of src/libpmemblk/btt.c describe them.
use nvml.Base.{
  ℕ, ◌+◌, ◌*◌, ◌/◌, ◌%◌, ◌^◌, ◌≤◌, ◌<◌, ◌≡◌, ◌≢◌, ◌⊎◌, List, length, replicate, ◌==◌, if◌then◌else◌,
}
use nvml.Base.Memory.{Mem, load, get32}
use nvml.Base.Outcome.{Result, ok, err, eio}
use nvml.Btt.{Btt, Arena, Flog, FlogRuntime, flog_at}
use nvml.Btt.FreeList.{nseq, next_off}

-- The map entry of a pre-map LBA.
abbrev pub map_word : Arena → Mem → ℕ → ℕ
map_word a m i = get32 m (a.mapoff + 4 * i)

-- The block that a map entry names: an entry in its initial state names the block of its own
-- number.
abbrev pub block_named : ℕ → ℕ → ℕ
block_named i w = if w / 2 ^ 30 == 0 then i else w % 2 ^ 30

abbrev pub block_of : Arena → Mem → ℕ → ℕ
block_of a m i = block_named i (map_word a m i)

-- The block that a lane's flog has free.
abbrev pub free_of : Arena → ℕ → ℕ
free_of a k = (flog_at a k).flog.old_map % 2 ^ 30

abbrev pub block_start : Arena → ℕ → ℕ
block_start a n = a.dataoff + n * a.internal_lbasize

-- What reading a pre-map LBA gives, by the state of its map entry.
abbrev pub contents_by : Btt → Arena → Mem → ℕ → Result (List ℕ)
contents_by b a m w =
    if w / 2 ^ 30 == 1
    then err eio
    else if w / 2 ^ 30 == 3
    then ok (load m (block_start a (w % 2 ^ 30)) b.lbasize)
    else ok (replicate b.lbasize 0)

unfoldable pub contents : Btt → Arena → Mem → ℕ → Result (List ℕ)
contents b a m i = contents_by b a m (map_word a m i)

-- The regions of an arena follow one another inside the namespace, and 32-bit products of block
-- numbers do not wrap, which limits the data area to 4 GiB.
pub record IsLaidOut (b : Btt) (a : Arena) (size : ℕ) : Type 0 where
  pub data_end : a.dataoff + a.internal_nlba * a.internal_lbasize ≤ a.mapoff
  pub data_small : a.internal_nlba * a.internal_lbasize ≤ 2 ^ 32
  pub lbasize_pos : 0 < a.internal_lbasize
  pub lbasize_fits : b.lbasize ≤ a.internal_lbasize
  pub lbasize_aligned : a.internal_lbasize % 256 ≡ 0
  pub map_end : a.mapoff + 4 * a.external_nlba ≤ a.flogoff
  pub flog_pos : 0 < a.flogoff
  pub flog_end : a.flogoff + 64 * b.nfree ≤ size
  pub size_small : size < 2 ^ 64
  pub nlba_small : a.internal_nlba ≤ 2 ^ 30
  pub external_le : a.external_nlba ≤ a.internal_nlba
  pub external_valid : a.external_nlba ≤ b.nlba

-- The flog entry stands at an offset.
pub record At (m : Mem) (off : ℕ) (fl : Flog) : Type 0 where
  pub lba_at : get32 m off ≡ fl.lba
  pub old_at : get32 m (off + 4) ≡ fl.old_map
  pub new_at : get32 m (off + 8) ≡ fl.new_map
  pub seq_at : get32 m (off + 12) ≡ fl.seq

-- The offset of the current entry.
abbrev pub cur_off : FlogRuntime → ℕ
cur_off rt = if rt.next == 0 then rt.entry1 else rt.entry0

-- A sequence number that the next one replaces.
abbrev pub Precedes : ℕ → ℕ → Type 0
Precedes old new = (old ≡ 0) ⊎ ((1 ≤ old) × (old ≤ 3) × (nseq old ≡ new))

-- The pair of flog entries at `off` has the run-time state `rt`.
pub record PairAt (ext : ℕ) (m : Mem) (off : ℕ) (rt : FlogRuntime) : Type 0 where
  pub first : rt.entry0 ≡ off
  pub second : rt.entry1 ≡ off + 16
  pub next_bit : rt.next ≤ 1
  pub current : At m (cur_off rt) rt.flog
  pub seq_pos : 1 ≤ rt.flog.seq
  pub seq_le : rt.flog.seq ≤ 3
  pub stale : Precedes (get32 m (next_off rt + 12)) rt.flog.seq
  pub lba_valid : rt.flog.lba < ext
  pub stale_valid : get32 m (next_off rt) < ext

-- The map and the free lists of an arena divide its blocks among them.
pub record IsConsistent (b : Btt) (a : Arena) (m : Mem) : Type 0 where
  pub lanes : length a.flogs ≡ b.nfree
  pub pairs : (k : ℕ) → k < b.nfree → PairAt a.external_nlba m (a.flogoff + 64 * k) (flog_at a k)
  pub mapped_in : (i : ℕ) → i < a.external_nlba → block_of a m i < a.internal_nlba
  pub free_in : (k : ℕ) → k < b.nfree → free_of a k < a.internal_nlba
  pub mapped_apart :
      (i j : ℕ)
      → i < a.external_nlba
      → j < a.external_nlba
      → block_of a m i ≡ block_of a m j
      → i ≡ j
  pub free_apart : (k l : ℕ) → k < b.nfree → l < b.nfree → free_of a k ≡ free_of a l → k ≡ l
  pub mapped_not_free : (i k : ℕ) → i < a.external_nlba → k < b.nfree → block_of a m i ≢ free_of a k
