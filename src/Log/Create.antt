-- ===== src/Log/Create.antt =====
-- A log that pmemlog_create made is one that pmemlog_open accepts.
use nvml.Base.{
  ℕ, ◌-◌, ◌^◌, ◌<◌, ◌≤◌, ◌≡◌, refl, sym, ap, subst, ◌∙◌, List, [], Bool, true, false, length,
  if◌then◌else◌, arith,
}
use nvml.Base.Memory.{Mem, load, store, word, get64, load-store, store-Apart, load-Agree}
use nvml.Base.Words64.{get64-store-Apart}
use nvml.Base.Outcome.{ok, err, einval}
use nvml.Header.{convert_hdr, feature_check, supported, is_zeroed, new_hdr, hdr_size, hdr_major_off}
use nvml.Header.Create.{length-new_hdr, new_hdr_major, new_hdr-signature, convert-new_hdr}
use nvml.Btt.InfoBlock.{same_at}
use nvml.Log.{Log, check_offsets, format, data_start, write_offset}
use nvml.Log.View.{IsLog, contents}
use nvml.Log.Validate.{format-IsLog, check-IsLog, check_offsets-check}
use nvml.Log.Open.{open_log, create_log, map_log, log_signature, log_major}

module _ (uuid : List ℕ) (crtime poolsize : ℕ) (rdonly : Bool) (m : Mem)
    (uuid_length : length uuid ≡ 16) (blank : is_zeroed (load m 0 hdr_size) ≡ true)
    (size_lo : data_start ≤ poolsize) (size_hi : poolsize < 2 ^ 64) where
  abbrev hdr : List ℕ
  hdr = new_hdr log_signature log_major uuid crtime

  abbrev fresh : Log
  fresh = record { mem = m; size = poolsize; rdonly = false }

  abbrev created : Mem
  created = store (format poolsize fresh).mem 0 hdr

  hdr-length : length hdr ≡ 4096
  hdr-length =
      length-new_hdr log_signature log_major uuid crtime refl uuid_length (omega arith)
        (omega arith)

  create_run :
      map_log uuid crtime poolsize false true m
      ≡ (ok tt, record { mem = created; size = poolsize; rdonly = false })
  unfolding map_log create_log format
  create_run = ground arith

  hdr_kept : load created 0 hdr_size ≡ hdr
  hdr_kept =
      subst (λ n. load created 0 n ≡ hdr) hdr-length (load-store (format poolsize fresh).mem 0 hdr)

  abbrev base : Log
  base = format poolsize fresh

  -- The pool that is opened.
  abbrev opened : Log
  opened = record { mem = created; size = poolsize; rdonly = rdonly }

  -- The header is apart from the offsets and the data.
  field_kept : (o : ℕ) → 4096 ≤ o → get64 created o ≡ get64 base.mem o
  field_kept o le = get64-store-Apart base.mem 0 hdr o (omega (arith, hdr-length))

  opened-IsLog : IsLog opened
  unfolding format
  opened-IsLog =
      let g = (format-IsLog fresh size_lo size_hi).0 in
      record {
        starts = field_kept 4096 (omega arith) ∙ g.starts;
        ends = field_kept 4104 (omega arith) ∙ g.ends;
        above = rw (field_kept 4112 (omega arith)) g.above;
        below = rw (field_kept 4112 (omega arith)) g.below;
      }

  opened_empty : contents opened ≡ []
  opened_empty = rw (field_kept 4112 (omega arith)) (
      load-Agree created base.mem data_start (write_offset base - data_start) (
        store-Apart base.mem 0 hdr data_start (write_offset base - data_start)
          (omega (arith, hdr-length)))
      ∙ (format-IsLog fresh size_lo size_hi).1)

  offsets_run : check_offsets poolsize opened ≡ (ok tt, opened)
  offsets_run =
      check_offsets-check opened
      ∙ ap (λ c. (if c then ok tt else err einval, opened)) ((check-IsLog opened).1 opened-IsLog)

  open_run : map_log uuid crtime poolsize rdonly false created ≡ (ok tt, opened)
  unfolding map_log open_log
  open_run = rw (valid.0, valid.1, valid.2, offsets_run, valid.3) refl
    where
      valid :
          (convert_hdr (load created 0 hdr_size) ≡ true)
          × (same_at (load created 0 hdr_size) 0 log_signature ≡ true)
          × (word (load created 0 hdr_size) hdr_major_off ≡ log_major)
          × (feature_check (load created 0 hdr_size) 0 0 ≡ supported)
      valid =
          let (converts, features) =
            convert-new_hdr log_signature log_major uuid crtime refl uuid_length (omega arith)
              (omega arith) in
          subst
            (λ h.
              (convert_hdr h ≡ true)
              × (same_at h 0 log_signature ≡ true)
              × (word h hdr_major_off ≡ log_major)
              × (feature_check h 0 0 ≡ supported))
            (sym hdr_kept)
            (
              converts,
              new_hdr-signature log_signature log_major uuid crtime refl uuid_length (omega arith)
                  (omega arith),
              new_hdr_major log_signature log_major uuid crtime refl uuid_length (omega arith)
                  (omega arith),
              features 0 0,
            )

  -- On a file whose header is zero, of at least 8192 bytes, creating a log succeeds; then opening it,
  -- read-only or not, succeeds and gives a well-formed log with no bytes in it.
  pub open-create :
      let (r, l) = map_log uuid crtime poolsize false true m in
      (r ≡ ok tt)
      × (map_log uuid crtime poolsize rdonly false l.mem ≡ (ok tt, record l { rdonly = rdonly }))
      × IsLog (record l { rdonly = rdonly })
      × (contents (record l { rdonly = rdonly }) ≡ [])
  open-create = rw create_run (refl, open_run, opened-IsLog, opened_empty)
