-- ===== src/Btt/RoundTrip.antt =====
-- What a client of one arena sees: blocks that are read back.
use nvml.Base.{ℕ, ◌<◌, ◌≡◌, ◌≢◌, refl, List, length, bit_and, take, some, false, get_elem?}
use nvml.Base.Outcome.{ok}
use nvml.Btt.{Btt, Dev, flag_error}
use nvml.Btt.Entry.{error_entry}
use nvml.Btt.Block.{write_block, read_block, being_read}
use nvml.Btt.View.{IsLaidOut, IsConsistent, contents}
use nvml.Btt.Stores.{new_entry, new_runtime}
use nvml.Btt.Steps.{IsLaidOut-set}
use nvml.Btt.Read.{read_block-contents}
use nvml.Btt.Write.{wrote, write_block-contents}

module _ (b : Btt) (d : Dev) (lane i : ℕ) (buf : List ℕ) (g : IsLaidOut b d.arena d.ns.datasize)
    (c : IsConsistent b d.arena d.ns.mem) (lane_in : lane < b.nfree)
    (i_in : i < d.arena.external_nlba) (full : length buf ≡ b.lbasize)
    (clear : bit_and d.arena.flags flag_error ≡ 0)
    (quiet : being_read (take b.nlane d.arena.rtt) (new_entry d.arena lane) ≡ false) where
  laid_out : IsLaidOut b (wrote d lane i buf).arena d.ns.datasize
  laid_out = IsLaidOut-set lane (new_runtime d.arena d.ns.mem lane i) g

  -- Let no lane be reading the lane's free block, and the arena be laid out, consistent and not in
  -- an error state. A write of a full block succeeds; the arena is consistent again; the block's
  -- contents are the bytes written and every other block keeps its contents.
  pub write_block-updates :
      let (r, d') = write_block b lane i buf d in
      (r ≡ ok tt)
      × IsConsistent b d'.arena d'.ns.mem
      × (contents b d'.arena d'.ns.mem i ≡ ok buf)
      × ((j : ℕ)
          → j < d.arena.external_nlba
          → j ≢ i
          → contents b d'.arena d'.ns.mem j ≡ contents b d.arena d.ns.mem j)
  write_block-updates =
      let (run, new, old, kept) =
        write_block-contents b d lane i buf g c lane_in i_in full clear quiet in
      rw run (refl, kept, new, old)

  module _ (reader : ℕ) (idle : get_elem? d.arena.rtt reader ≡ some error_entry) where
    -- Under the same conditions an idle lane reads the bytes written from the block, and from every
    -- other block what it would have read before the write.
    pub read_block-write_block :
        let (r, d') = write_block b lane i buf d in
        (read_block b reader i d' ≡ (ok buf, d'))
        × ((j : ℕ)
            → j < d.arena.external_nlba
            → j ≢ i
            → (read_block b reader j d').0 ≡ (read_block b reader j d).0)
    read_block-write_block =
        let (run, new, old, kept) =
          write_block-contents b d lane i buf g c lane_in i_in full clear quiet in
        rw run (
          rw (read_block-contents b (wrote d lane i buf) reader i laid_out kept i_in idle, new)
              refl,
          λ j h ne.
              rw
                (
                  read_block-contents b (wrote d lane i buf) reader j laid_out kept h idle,
                  read_block-contents b d reader j g c h idle,
                )
                (old j h ne),
        )
