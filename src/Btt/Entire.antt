-- ===== src/Btt/Entire.antt =====
-- btt_write, btt_set_zero and btt_set_error over all arenas of a table.
use nvml.Base.{
  ℕ, ◌+◌, ◌*◌, ◌/◌, ◌^◌, ◌≤◌, ◌<◌, ◌≡◌, refl, sym, ap, ◌∙◌, inl, inr, List, length, bit_and, take,
  false, replicate, Bool-cases, ◌==◌, if◌then◌else◌, some, get_elem?, arith,
}
use nvml.Base.Memory.{Outside, store-Outside, le32}
use nvml.Btt.Entry.{error_entry, zero_entry}
use nvml.Btt.Mark.{
  marked, marked-IsConsistent, block, w, set_error_run, set_zero_run, marked_error, marked_zero,
  unmarked_zero, marked_other,
}
use nvml.Base.Outcome.{Result, ok, err, eio}
use nvml.Btt.{Arena, Dev, flag_error, flog_at}
use nvml.Btt.FreeList.{next_off}
use nvml.Btt.Block.{being_read}
use nvml.Btt.View.{IsLaidOut, IsConsistent}
use nvml.Btt.Stores.{new_entry, touched4, regions, mem1, mem2, mem3, mem4}
use nvml.Btt.Touched.{slot_in}
use nvml.Btt.Write.{wrote, write_block-contents}
use nvml.Btt.Frame.{region_size}
use nvml.Btt.Table.{Table, btt_read}
use nvml.Btt.Lookup.{IsTable, lbas_before, place_lem, btt_read-contents}
use nvml.Btt.Spread.{IsSpread, IsLocal, Updates, local-Updates, contents_at, changed}
use nvml.Btt.Update.{btt_write, btt_set_zero, btt_set_error, map_entry_setf, ensure_layout}

module _ (t : Table) (k : ℕ) (a : Arena) (p : ℕ) (h : IsTable t) (s : IsSpread t)
    (here : get_elem? t.btt.arenas k ≡ some a) (p_in : p < a.external_nlba) where
  abbrev d : Dev
  d = record { ns = t.ns; arena = a }

  abbrev g : IsLaidOut t.btt a t.ns.datasize
  g = h.laid_out k a here

  abbrev c : IsConsistent t.btt a t.ns.mem
  c = h.consistent k a here

  module _ (lane : ℕ) (buf : List ℕ) (lane_in : lane < t.btt.nfree)
      (full : length buf ≡ t.btt.lbasize) (clear : bit_and a.flags flag_error ≡ 0)
      (quiet : being_read (take t.btt.nlane a.rtt) (new_entry a lane) ≡ false) where
    write_run :
        btt_write lane (lbas_before t.btt.arenas k + p) buf t
        ≡ (ok tt, changed t k (wrote d lane p buf).arena (wrote d lane p buf).ns)
    unfolding btt_write ensure_layout
    write_run = ground (
      arith,
      h.laidout,
      place_lem t k a p h here p_in,
      write_block-contents t.btt d lane p buf g c lane_in p_in full clear quiet,
    )

    slots :
        (a.flogoff + 64 * lane ≤ next_off (flog_at a lane))
        × (next_off (flog_at a lane) + 16 ≤ a.flogoff + 64 * lane + 32)
    slots =
        slot_in t.btt a t.ns.datasize g t.ns.mem t.ns.mem lane p c lane_in p_in (λ x q r w. refl)

    write_outside :
        (x : ℕ)
        → Outside a.dataoff (region_size t.btt a) x
        → (wrote d lane p buf).ns.mem x ≡ t.ns.mem x
    unfolding mem1 mem2 mem3 mem4
    write_outside x o =
        let r = regions t.btt a t.ns.datasize g t.ns.mem lane p buf c lane_in p_in full in
        touched4 t.btt a t.ns.datasize g t.ns.mem lane p buf c lane_in p_in full x
          (omega (arith, o, r, g)) (omega (arith, o, slots, r, g, lane_in))
          (omega (arith, o, slots, r, g, lane_in))

    write-IsLocal : IsLocal t k a (wrote d lane p buf).arena.flogs (wrote d lane p buf).ns
    write-IsLocal = record {
      here = here;
      same_size = refl;
      still = (write_block-contents t.btt d lane p buf g c lane_in p_in full clear quiet).3;
      outside = write_outside;
    }

    -- Let the table's arenas be laid out, consistent and apart, the block's arena not be in an error
    -- state, and no lane be reading the lane's free block of it. Then btt_write of a full block
    -- succeeds, the table is such a table again, the block's contents are the bytes written, and
    -- every other block of every arena keeps its contents.
    pub btt_write-Updates :
        let (r, t') = btt_write lane (lbas_before t.btt.arenas k + p) buf t in
        (r ≡ ok tt) × Updates t t' k p (ok buf)
    btt_write-Updates =
        let (run, new, old, kept) =
          write_block-contents t.btt d lane p buf g c lane_in p_in full clear quiet in
        rw write_run (
          refl,
          local-Updates t k a (wrote d lane p buf).arena.flogs (wrote d lane p buf).ns p (ok buf) h
              s write-IsLocal new old,
        )

  module _ (lane : ℕ) (some_lane : 0 < t.btt.nfree) (clear : bit_and a.flags flag_error ≡ 0) where
    mark-IsLocal :
        (q : ℕ)
        → 1 ≤ q
        → q ≤ 2
        → IsLocal t k a a.flogs (marked t.btt d p g c some_lane p_in (q * 2 ^ 30)).ns
    mark-IsLocal q lo hi = record {
      here = here;
      same_size = refl;
      still = marked-IsConsistent t.btt d p g c some_lane p_in q lo hi;
      outside = λ x o.
          store-Outside t.ns.mem (a.mapoff + 4 * p)
            (le32 (block t.btt d p g c some_lane p_in + q * 2 ^ 30)) x (omega (arith, o, g, p_in));
    }

    unmarked-IsLocal : IsLocal t k a a.flogs t.ns
    unmarked-IsLocal = record { here = here; same_size = refl; still = c; outside = λ x o. refl }

    set_error_place :
        btt_set_error lane (lbas_before t.btt.arenas k + p) t
        ≡ (ok tt, changed t k a (marked t.btt d p g c some_lane p_in error_entry).ns)
    unfolding map_entry_setf ensure_layout
    set_error_place = ground (
      arith,
      h.laidout,
      place_lem t k a p h here p_in,
      set_error_run t.btt d p g c some_lane p_in clear,
    )

    -- Let the table's arenas be laid out, consistent and apart, and the block's arena not be in an
    -- error state. Then btt_set_error succeeds, the table is such a table again, the block reads as
    -- an I/O error, and every other block of every arena keeps its contents.
    pub btt_set_error-Updates :
        let (r, t') = btt_set_error lane (lbas_before t.btt.arenas k + p) t in
        (r ≡ ok tt) × Updates t t' k p (err eio)
    btt_set_error-Updates = rw set_error_place (
      refl,
      local-Updates t k a a.flogs (marked t.btt d p g c some_lane p_in error_entry).ns p (err eio) h
          s (mark-IsLocal 1 (omega arith) (omega arith)) (marked_error t.btt d p g c some_lane p_in)
          (marked_other t.btt d p g c some_lane p_in 1 (omega arith) (omega arith)),
    )

    set_zero_place : btt_set_zero lane (lbas_before t.btt.arenas k + p) t ≡ (
      ok tt,
      changed t k a (
          if w t.btt d p g c some_lane p_in / 2 ^ 30 == 2
          then t.ns
          else (marked t.btt d p g c some_lane p_in zero_entry).ns),
    )
    unfolding map_entry_setf ensure_layout
    set_zero_place = ground (
      arith,
      h.laidout,
      place_lem t k a p h here p_in,
      set_zero_run t.btt d p g c some_lane p_in clear,
    )

    -- Under the same conditions btt_set_zero succeeds, the table is such a table again, the block
    -- reads as zeros, and every other block of every arena keeps its contents.
    pub btt_set_zero-Updates :
        let (r, t') = btt_set_zero lane (lbas_before t.btt.arenas k + p) t in
        (r ≡ ok tt) × Updates t t' k p (ok (replicate t.btt.lbasize 0))
    btt_set_zero-Updates = elim (Bool-cases (w t.btt d p g c some_lane p_in / 2 ^ 30 == 2)) [
      | inl e ↦
          rw (set_zero_place, e)
            (
              refl,
              local-Updates t k a a.flogs t.ns p (ok (replicate t.btt.lbasize 0)) h s
                  unmarked-IsLocal (unmarked_zero t.btt d p g c some_lane p_in e) (λ q lt ne. refl),
            )
      | inr e ↦
          rw (set_zero_place, e)
            (
              refl,
              local-Updates t k a a.flogs (marked t.btt d p g c some_lane p_in zero_entry).ns p
                  (ok (replicate t.btt.lbasize 0)) h s (mark-IsLocal 2 (omega arith) (omega arith))
                  (marked_zero t.btt d p g c some_lane p_in)
                  (marked_other t.btt d p g c some_lane p_in 2 (omega arith) (omega arith)),
            )
    ]

-- What an update of a table means to a reader: an idle lane reads the new contents from the LBA of
-- the block, and what it would have read before from the LBA of every other block.
read-Updates :
    (t t' : Table) (k p : ℕ) (v : Result (List ℕ)) (lane : ℕ) (a : Arena)
    → Updates t t' k p v
    → get_elem? t'.btt.arenas k ≡ some a
    → p < a.external_nlba
    → get_elem? a.rtt lane ≡ some error_entry
    → btt_read lane (lbas_before t'.btt.arenas k + p) t' ≡ (v, t')
read-Updates t t' k p v lane a u e lt idle =
    (btt_read-contents t' lane k a p u.table e lt idle).0
    ∙ ap (λ r. (r, t')) (ap (λ o. contents_at t'.btt t'.ns.mem o p) (sym e) ∙ u.new)
