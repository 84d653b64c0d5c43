-- ===== src/Btt/FreeList.antt =====
-- The free list and log of src/libpmemblk/btt.c: reading a pair of entries with the recovery of an
-- interrupted write, and writing a new entry.
use nvml.Base.{
  ℕ, zero, suc, ◌+◌, ◌-◌, List, [], ◌∷◌, ◌++◌, bit_and, ◌==◌, leb, ◌&&◌, not, Bool, Option, none,
  some, get_or, if◌then◌else◌,
}
use nvml.Base.Memory.{word, le32}
use nvml.Base.Outcome.{Run, pure, fail, ok, err, hang, einval, ◌>>=◌, ◌>>◌}
use nvml.Btt.{
  Btt, Dev, Flog, FlogRuntime, flog_at, flog_size, flog_pair_align, zero_flog, flag_error,
}
use nvml.Btt.Entry.{map_entry_is_initial, normal}
use nvml.Btt.Device.{dev_read, dev_write, map_entry_off, or_flags, set_flog}
use nvml.Btt.Info.{set_arena_error}

-- NSEQ: the sequence numbers cycle through 1, 2 and 3.
unfoldable pub nseq : ℕ → ℕ
nseq seq = get_or (0 ∷ 2 ∷ 3 ∷ 1 ∷ []) (bit_and seq 3) 0

unfoldable pub invalid_lba : Btt → ℕ → Bool
invalid_lba b lba = leb b.nlba lba

-- A flog entry at index `i` of the bytes read, in host byte order.
abbrev pub flog_of : List ℕ → ℕ → Flog
flog_of bytes i = record {
  lba = word bytes i;
  old_map = word bytes (i + 4);
  new_map = word bytes (i + 8);
  seq = word bytes (i + 12);
}

-- The current entry of a pair and the index of the other; `none` is the layout error.
unfoldable pub current_flog : Flog → Flog → Option (Flog × ℕ)
current_flog p0 p1 =
    if p0.seq == p1.seq
    then none
    else if p0.seq == 0
    then some (p1, 0)
    else if p1.seq == 0
    then some (p0, 1)
    else if nseq p0.seq == p1.seq
    then some (p1, 0)
    else some (p0, 1)

-- The end of read_flog_pair: complete an operation whose map update is missing.
unfoldable pub complete_flog : Flog → Run Dev (Unit {0})
complete_flog current d =
    if current.old_map == current.new_map
    then pure tt d
    else (do
      bytes ← dev_read 4 (map_entry_off d.arena current.lba)
      let found = word bytes 0
      let entry = if map_entry_is_initial found then normal current.lba else found
      if not (current.new_map == entry) && current.old_map == entry
          then dev_write (le32 current.new_map) (map_entry_off d.arena current.lba)
          else pure tt)
        d

-- What read_flog_pair does with the pair: the run-time state, or the arena marked as broken.
unfoldable pub use_pair : ℕ → Option (Flog × ℕ) → Run Dev FlogRuntime
use_pair flog_off none d =
    (do
      or_flags flag_error
      pure
          (record { flog = zero_flog; entry0 = flog_off; entry1 = flog_off + flog_size; next = 0 }))
      d
use_pair flog_off (some (current, next)) d =
    (do
      complete_flog current
      pure (record {
        flog = current;
        entry0 = flog_off;
        entry1 = flog_off + flog_size;
        next = next;
      }))
      d

unfoldable pub read_flog_pair : Btt → ℕ → ℕ → Run Dev FlogRuntime
read_flog_pair b lane flog_off d =
    if leb b.nfree lane
    then fail einval d
    else if flog_off == 0
    then fail einval d
    else (do
      bytes ← dev_read (flog_size + flog_size) flog_off
      let p0 = flog_of bytes 0
      let p1 = flog_of bytes 16
      if invalid_lba b p0.lba
          then fail einval
          else if invalid_lba b p1.lba
          then fail einval
          else use_pair flog_off (current_flog p0 p1))
        d

-- The loop of read_flogs, over the pairs left: it hands back the run-time states in lane order.
-- A pair of 32 bytes is aligned to 64. An error marks the arena, and its errno is the first one.
unfoldable pub read_pairs : Btt → ℕ → ℕ → ℕ → Run Dev (List FlogRuntime)
read_pairs b lane flog_off zero d = pure [] d
read_pairs b lane flog_off (suc left) d =
    let (r, d') = read_flog_pair b lane flog_off d in
    elim r [
      | ok rt ↦
          let (rs, d'') = read_pairs b lane (flog_off + flog_pair_align) left d' in
          elim rs [ ok rts ↦ (ok (rt ∷ rts), d'') | err e ↦ (err e, d'') | hang ↦ (hang, d'') ]
      | err e ↦ (err e, (set_arena_error b d').1)
      | hang ↦ (hang, d')
    ]

-- read_flogs: the run-time flog state of all lanes.
unfoldable pub read_flogs : Btt → ℕ → Run Dev (Unit {0})
read_flogs b lane d =
    (do
      flogs ← read_pairs b lane d.arena.flogoff b.nfree
      λ e. pure tt (record e { arena = record (e.arena) { flogs = flogs } }))
      d

-- The offset of the entry to write next.
abbrev pub next_off : FlogRuntime → ℕ
next_off rt = if rt.next == 0 then rt.entry0 else rt.entry1

-- The run-time state after an update.
abbrev pub advanced : FlogRuntime → ℕ → ℕ → ℕ → FlogRuntime
advanced rt lba old_map new_map = record rt {
  next = 1 - rt.next;
  flog = record { lba = lba; old_map = old_map; new_map = new_map; seq = nseq rt.flog.seq };
}

unfoldable pub flog_update : ℕ → ℕ → ℕ → ℕ → Run Dev (Unit {0})
flog_update lane lba old_map new_map d =
    let rt = flog_at d.arena lane in
    let new_flog_off = next_off rt in
    (do
      dev_write (le32 lba ++ le32 old_map) new_flog_off
      dev_write (le32 new_map ++ le32 (nseq rt.flog.seq)) (new_flog_off + 8)
      set_flog lane (advanced rt lba old_map new_map))
      d
