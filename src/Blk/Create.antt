-- ===== src/Blk/Create.antt =====
-- A pool that pmemblk_create made is one that pmemblk_open accepts.
use nvml.Base.{
  ℕ, ◌^◌, ◌<◌, ◌≡◌, ◌≢◌, refl, sym, subst, ◌∙◌, List, [], ◌∷◌, length, true, false, Bool, not, ◌==◌,
  ◌&&◌, if◌then◌else◌, arith,
}
use nvml.Base.Memory.{
  Mem, word, load, store, le32, get32, get32-store-le32, get32-store-Apart, load-store,
}
use nvml.Base.Outcome.{ok, err, einval}
use nvml.Header.{is_zeroed, new_hdr, hdr_size, convert_hdr, feature_check, supported, hdr_major_off}
use nvml.Btt.InfoBlock.{same_at}
use nvml.Header.Create.{length-new_hdr, new_hdr_major, new_hdr-signature, convert-new_hdr}
use nvml.Blk.Open.{
  Outside, check_pool, initialize_pool, blk_signature, blk_major, bsize_off, is_zeroed_off,
  bool_byte,
}

module _ (o : Outside) (bsize : ℕ) (zeroed rdonly : Bool) (m : Mem)
    (uuid_length : length o.uuid ≡ 16) (blank : is_zeroed (load m 0 hdr_size) ≡ true)
    (bsize_pos : bsize ≢ 0) (bsize_small : bsize < 2 ^ 32) where
  abbrev hdr : List ℕ
  hdr = new_hdr blk_signature blk_major o.uuid o.crtime

  abbrev described : Mem
  described = store (store m bsize_off (le32 bsize)) is_zeroed_off (bool_byte zeroed ∷ [])

  abbrev created : Mem
  created = store described 0 hdr

  hdr-length : length hdr ≡ 4096
  hdr-length =
      length-new_hdr blk_signature blk_major o.uuid o.crtime refl uuid_length (omega arith)
        (omega arith)

  create_run : initialize_pool o bsize zeroed m ≡ (ok (bsize, false), created)
  unfolding initialize_pool
  create_run = ground arith

  hdr_kept : load created 0 hdr_size ≡ hdr
  hdr_kept = subst (λ n. load created 0 n ≡ hdr) hdr-length (load-store described 0 hdr)

  bsize_kept : get32 created bsize_off ≡ bsize
  bsize_kept =
      get32-store-Apart described 0 hdr bsize_off (omega (arith, hdr-length))
      ∙ get32-store-Apart (store m bsize_off (le32 bsize)) is_zeroed_off (bool_byte zeroed ∷ [])
          bsize_off (omega arith)
      ∙ get32-store-le32 m bsize_off bsize bsize_small

  -- What the checks of pmemblk_open see in the pool that was created.
  valid :
      (convert_hdr (load created 0 hdr_size) ≡ true)
      × (same_at (load created 0 hdr_size) 0 blk_signature ≡ true)
      × (word (load created 0 hdr_size) hdr_major_off ≡ blk_major)
      × (feature_check (load created 0 hdr_size) 0 0 ≡ supported)
  valid =
      let (converts, features) =
        convert-new_hdr blk_signature blk_major o.uuid o.crtime refl uuid_length (omega arith)
          (omega arith) in
      subst
        (λ h.
          (convert_hdr h ≡ true)
          × (same_at h 0 blk_signature ≡ true)
          × (word h hdr_major_off ≡ blk_major)
          × (feature_check h 0 0 ≡ supported))
        (sym hdr_kept)
        (
          converts,
          new_hdr-signature blk_signature blk_major o.uuid o.crtime refl uuid_length (omega arith)
              (omega arith),
          new_hdr_major blk_signature blk_major o.uuid o.crtime refl uuid_length (omega arith)
              (omega arith),
          features 0 0,
        )

  check_run :
      (asked : ℕ)
      → check_pool asked rdonly created ≡ (
          if not (asked == 0) && not (asked == bsize)
          then (err einval, created)
          else (ok (bsize, rdonly), created))
  unfolding check_pool
  check_run asked = rw (valid.0, valid.1, valid.2, valid.3, bsize_kept) refl

  -- On a file whose header is zero, creating a pool with a block size that is not 0 and fits in 32
  -- bits succeeds, and opening what it leaves gives that block size, if it is asked for or none is;
  -- opening with another block size fails with EINVAL.
  pub check-initialize :
      let (r, m') = initialize_pool o bsize zeroed m in
      (r ≡ ok (bsize, false))
      × (check_pool 0 rdonly m' ≡ (ok (bsize, rdonly), m'))
      × (check_pool bsize rdonly m' ≡ (ok (bsize, rdonly), m'))
      × ((other : ℕ) → other ≢ 0 → other ≢ bsize → check_pool other rdonly m' ≡ (err einval, m'))
  check-initialize = rw create_run (
    refl,
    check_run 0,
    check_run bsize ∙ ground arith,
    λ other ne ne'. check_run other ∙ ground arith,
  )
