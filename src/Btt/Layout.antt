-- ===== src/Btt/Layout.antt =====
-- Loading and writing the metadata of a namespace: read_arena, read_arenas, write_layout,
-- read_layout and btt_init of src/libpmemblk/btt.c. Allocation does not fail.
use nvml.Base.{
  ℕ, zero, suc, ◌+◌, ◌-◌, ◌/◌, ◌^◌, bit_or, List, [], ◌∷◌, ◌++◌, ◌||◌, Option, none, some, Bool,
  true, false, ltb, ◌==◌, ◌&&◌, not, min, replicate, if◌then◌else◌,
}
use nvml.Base.Memory.{le32, le64}
use nvml.Base.Outcome.{Run, Result, pure, fail, ok, err, hang, einval, ◌>>=◌, ◌>>◌}
use nvml.Checksum.{insert_checksum}
use nvml.Namespace.{Ns, nsread, nswrite, nszero, u64, u32}
use nvml.Btt.{Btt, Arena, Flog, zero_flog, info_size, flog_size, flog_pair_align, info_checksum_off}
use nvml.Btt.Entry.{error_entry, zero_entry}
use nvml.Btt.FreeList.{read_flogs}
use nvml.Btt.InfoBlock.{Info, read_info, info_of, signature}
use nvml.Btt.Geometry.{
  Plan, plan_arena, count_arenas, adjust_lbasize, btt_min_size, btt_max_arena, default_nfree,
  roundup64,
}
use nvml.Btt.Table.{Table}

-- A call on the namespace of a table.
abbrev pub on_ns {ℓ} : {A : Type ℓ} → Run Ns A → Run Table A
on_ns run t = let (r, ns) = run t.ns in (r, record t { ns = ns })

abbrev pub set_btt : (Btt → Btt) → Run Table (Unit {0})
set_btt f t = pure tt (record t { btt = f t.btt })

-- The run-time state of an arena before its flog is loaded.
abbrev pub arena_of : Info → ℕ → Arena
arena_of info arena_off = record {
  flags = info.flags;
  external_nlba = info.external_nlba;
  internal_lbasize = info.internal_lbasize;
  internal_nlba = info.internal_nlba;
  startoff = arena_off;
  dataoff = u64 (arena_off + info.dataoff);
  mapoff = u64 (arena_off + info.mapoff);
  flogoff = u64 (arena_off + info.flogoff);
  nextoff = u64 (arena_off + info.nextoff);
  flogs = [];
  rtt = [];
}

-- build_rtt
abbrev pub build_rtt : Btt → Arena → Arena
build_rtt b a = record a { rtt = replicate b.nfree error_entry }

unfoldable pub read_arena : Btt → ℕ → ℕ → Run Ns Arena
read_arena b lane arena_off ns =
    (do
      bytes ← nsread info_size arena_off
      λ ns'.
          let (r, d) =
            read_flogs b lane (record { ns = ns'; arena = arena_of (info_of bytes) arena_off }) in
          elim r [
            | ok u ↦ (ok (build_rtt b d.arena), d.ns)
            | err e ↦ (err e, d.ns)
            | hang ↦ (hang, d.ns)
          ])
      ns

-- The loop of read_arenas.
unfoldable pub load_arenas : Btt → ℕ → ℕ → ℕ → Run Ns (List Arena)
load_arenas b lane zero arena_off ns = pure [] ns
load_arenas b lane (suc narena) arena_off ns =
    (do
      a ← read_arena b lane arena_off
      arenas ← load_arenas b lane narena a.nextoff
      pure (a ∷ arenas))
      ns

unfoldable pub read_arenas : ℕ → ℕ → Run Table (Unit {0})
read_arenas lane narena t =
    (do
      arenas ← on_ns (load_arenas t.btt lane narena 0)
      set_btt (λ b. record b { arenas = arenas; laidout = true }))
      t

-- The info block of a fresh arena.
unfoldable pub fresh_info : Btt → Plan → List ℕ
fresh_info b p =
    insert_checksum
      (signature
        ++ (b.parent_uuid
            ++ (le32 0
                ++ (1
                    ∷ 0
                    ∷ 1
                    ∷ 0
                    ∷ (le32 b.lbasize
                        ++ (le32 p.external_nlba
                            ++ (le32 p.internal_lbasize
                                ++ (le32 p.internal_nlba
                                    ++ (le32 b.nfree
                                        ++ (le32 info_size
                                            ++ (le64 p.nextoff
                                                ++ (le64 p.dataoff
                                                    ++ (le64 p.mapoff
                                                        ++ (le64 p.flogoff
                                                            ++ (le64 p.infooff
                                                            ++ replicate 3992 0)))))))))))))))
      info_checksum_off

abbrev pub flog_bytes : Flog → List ℕ
flog_bytes fl = le32 fl.lba ++ (le32 fl.old_map ++ (le32 fl.new_map ++ le32 fl.seq))

-- The first entry of a lane whose free block is `lba`.
abbrev pub fresh_flog : ℕ → Flog
fresh_flog lba = record {
  lba = 0;
  old_map = bit_or lba zero_entry;
  new_map = bit_or lba zero_entry;
  seq = 1;
}

-- The loop that writes the initial flog, over the pairs left.
unfoldable pub write_flogs : ℕ → ℕ → ℕ → Run Ns (Unit {0})
write_flogs zero flog_entry_off next_free_lba ns = pure tt ns
write_flogs (suc left) flog_entry_off next_free_lba ns =
    (do
      nswrite (flog_bytes (fresh_flog next_free_lba)) flog_entry_off
      nswrite (flog_bytes zero_flog) (flog_entry_off + flog_size)
      write_flogs left (roundup64 (flog_entry_off + flog_size + flog_size) flog_pair_align)
          (u32 (next_free_lba + 1)))
      ns

-- The stores of one round of write_layout.
unfoldable pub write_arena : Btt → Plan → ℕ → Run Ns (Unit {0})
write_arena b p arena_off ns =
    (do
      if ns.is_zeroed then pure tt else nszero p.mapsize p.mapoff
      write_flogs b.nfree (u64 (arena_off + p.flogoff)) (u32 p.external_nlba)
      nswrite (fresh_info b p) arena_off
      nswrite (fresh_info b p) (u64 (arena_off + p.infooff)))
      ns

-- The rounds of write_layout: the total of LBAs. An arena takes at least BTT_MIN_SIZE bytes.
unfoldable pub layout_rounds : ℕ → Btt → Bool → ℕ → ℕ → ℕ → ℕ → Run Ns ℕ
layout_rounds zero b write internal_lbasize rawsize arena_off total_nlba ns = (hang, ns)
layout_rounds (suc fuel) b write internal_lbasize rawsize arena_off total_nlba ns =
    if ltb rawsize btt_min_size
    then pure total_nlba ns
    else elim (plan_arena b.nfree internal_lbasize rawsize) [
      | none ↦ fail einval ns
      | some p ↦
          (do
            if write then write_arena b p arena_off else pure tt
            layout_rounds fuel b write internal_lbasize (rawsize - p.arena_rawsize)
                (if write then u64 (arena_off + p.nextoff) else arena_off)
                (u64 (total_nlba + p.external_nlba)))
            ns
    ]

-- Enough rounds for every arena, and one to stop.
abbrev pub layout_fuel : ℕ → ℕ
layout_fuel rawsize = rawsize / btt_min_size + 1

unfoldable pub write_layout : ℕ → Bool → Run Table (Unit {0})
write_layout lane write t =
    (do
      set_btt (λ b. record b { narena = count_arenas b.rawsize })
      elim (adjust_lbasize t.btt.lbasize) [
        | none ↦ fail einval
        | some internal_lbasize ↦ (do
          total_nlba ← λ t'.
              on_ns
                (layout_rounds (layout_fuel t'.btt.rawsize) t'.btt write internal_lbasize
                  t'.btt.rawsize 0 0)
                t'
          set_btt (λ b. record b { nlba = total_nlba })
          λ t'. if write then read_arenas lane t'.btt.narena t' else pure tt t')
      ])
      t

-- What the rounds of read_layout find: no valid metadata, or the arenas, their LBAs and the least
-- number of free blocks.
pub data Found : Type 0 where
  pristine : Found
  laid_out : ℕ → ℕ → ℕ → Found

-- The tests on the fields of a valid info block.
unfoldable pub is_usable_info : Btt → Info → Bool
is_usable_info b info =
    info.external_lbasize == b.lbasize
    && not (info.nfree == 0)
    && not (info.external_nlba == 0)
    && (info.nextoff == 0 || info.nextoff == btt_max_arena)

-- What follows an info block: write_layout later on, an error, the end, or the next round.
unfoldable pub next_arena :
    Btt → ℕ → (Info → Run Ns Found) → (Info → Run Ns Found) → Option Info → Run Ns Found
next_arena b rawsize last rest none = pure pristine
next_arena b rawsize last rest (some info) =
    if not (is_usable_info b info)
    then fail einval
    else if info.nextoff == 0
    then last info
    else if ltb rawsize info.nextoff
    then fail einval
    else rest info

-- The rounds of read_layout.
unfoldable pub find_layout : ℕ → Btt → ℕ → ℕ → ℕ → ℕ → ℕ → Run Ns Found
find_layout zero b narena rawsize arena_off total_nlba smallest_nfree ns = (hang, ns)
find_layout (suc fuel) b narena rawsize arena_off total_nlba smallest_nfree ns =
    if ltb rawsize btt_min_size
    then pure (laid_out narena total_nlba smallest_nfree) ns
    else (do
      bytes ← nsread info_size arena_off
      next_arena b rawsize
          (λ info. pure (
            laid_out (narena + 1) (u64 (total_nlba + info.external_nlba))
              (min smallest_nfree info.nfree)))
          (λ info.
            find_layout fuel b (narena + 1) (rawsize - info.nextoff)
              (u64 (arena_off + info.nextoff)) (u64 (total_nlba + info.external_nlba))
              (min smallest_nfree info.nfree))
          (read_info b bytes))
        ns

unfoldable pub read_layout : ℕ → Run Table (Unit {0})
read_layout lane t =
    (do
      set_btt (λ b. record b { nfree = default_nfree })
      found ← λ t'.
          on_ns (find_layout (layout_fuel t'.btt.rawsize) t'.btt 0 t'.btt.rawsize 0 0 (2 ^ 32 - 1))
            t'
      elim found [
        | pristine ↦ write_layout lane false
        | laid_out narena total_nlba smallest_nfree ↦ (do
          set_btt (λ b. record b {
            narena = narena;
            nlba = total_nlba;
            nfree = min b.nfree smallest_nfree;
          })
          read_arenas lane narena)
      ])
      t

-- `struct btt` before its layout is known.
abbrev pub empty_btt : ℕ → ℕ → List ℕ → Btt
empty_btt rawsize lbasize parent_uuid = record {
  nlane = 0;
  laidout = false;
  parent_uuid = parent_uuid;
  rawsize = rawsize;
  lbasize = lbasize;
  nfree = 0;
  nlba = 0;
  narena = 0;
  arenas = [];
}

unfoldable pub btt_init : ℕ → ℕ → List ℕ → ℕ → Ns → Result Table × Ns
btt_init rawsize lbasize parent_uuid maxlane ns =
    if ltb rawsize btt_min_size
    then (err einval, ns)
    else let (r, t) =
        read_layout 0 (record { ns = ns; btt = empty_btt rawsize lbasize parent_uuid }) in
      elim r [
        | ok u ↦ (
          ok (record t {
            btt = record (t.btt) {
              nlane = if maxlane == 0 then t.btt.nfree else min t.btt.nfree maxlane;
            };
          }),
          t.ns,
        )
        | err e ↦ (err e, t.ns)
        | hang ↦ (hang, t.ns)
      ]
