-- ===== src/Log/File.antt =====
-- pmemlog_check of src/libpmemlog/log.c, with util_pool_open of src/common/util.c on a file that the
-- system lets it open. The mapping is read-only.
use nvml.Base.{
  ℕ, ◌≤◌, ◌≡◌, ◌≢◌, ◌⊎◌, ◌↔◌, not, List, inl, inr, refl, sym, ap, [], Bool, true, false, ltb, ◌==◌,
  if◌then◌else◌, arith,
}
use nvml.Base.Memory.{Mem, load, word}
use nvml.Base.Outcome.{Result, ok, err, hang, einval, continue}
use nvml.Header.{
  convert_hdr, feature_check, Features, unknown_incompat, unknown_ro_compat, supported, hdr_size,
  hdr_major_off,
}
use nvml.Btt.InfoBlock.{same_at}
use nvml.Log.{Log, check}
use nvml.Log.View.{IsLog}
use nvml.Log.Validate.{check-IsLog, check_offsets-check}
use nvml.Log.Open.{open_log, map_log, with_features, log_signature, log_major}

-- PMEMLOG_MIN_POOL
abbrev pub min_log_pool : ℕ
min_log_pool = 2097152

-- What pmemlog_check makes of the pool it has mapped, if there is one.
abbrev pub log_verdict : Result (Unit {0}) × Log → Result Bool
log_verdict (ok u, l) = ok (check l)
log_verdict (err e, l) = err e
log_verdict (hang, l) = hang

-- pmemlog_check on a file of the size `size`: an error is -1.
unfoldable pub check_log_file : ℕ → Mem → Result Bool
check_log_file size m =
    if ltb size min_log_pool then err einval else log_verdict (map_log [] 0 size true false m)

-- A file with a log pool: large enough, with the header of a log that this version can open, and a
-- well-formed log.
pub record IsLogFile (size : ℕ) (m : Mem) : Type 0 where
  pub large : min_log_pool ≤ size
  pub converted : convert_hdr (load m 0 hdr_size) ≡ true
  pub signed : same_at (load m 0 hdr_size) 0 log_signature ≡ true
  pub major : word (load m 0 hdr_size) hdr_major_off ≡ log_major
  pub known : feature_check (load m 0 hdr_size) 0 0 ≢ unknown_incompat
  pub formed : IsLog (record { mem = m; size = size; rdonly = true })

differ : ¬ ◌≡◌ {A = Bool} true false
differ e = cc

module _ (size : ℕ) (m : Mem) where
  abbrev mapped : Log
  mapped = record { mem = m; size = size; rdonly = true }

  -- The file passes the tests of its size, of the four parts of its header and of its offsets.
  abbrev Passes : Bool → Bool → Bool → Bool → Bool → Features → Type 0
  Passes small conv sig maj formed f =
      (small ≡ false)
      × (conv ≡ true)
      × (sig ≡ true)
      × (maj ≡ true)
      × (formed ≡ true)
      × (f ≢ unknown_incompat)

  abbrev outcome : Bool → Bool → Bool → Bool → Bool → Features → Result Bool
  outcome small conv sig maj formed f =
      if small
      then err einval
      else log_verdict (
          if not conv
          then (err einval, mapped)
          else if not sig
          then (err einval, mapped)
          else if not maj
          then (err einval, mapped)
          else continue {0, 0, 0} (if formed then ok tt else err einval) mapped
              (λ _. with_features f))

  outcome_cases :
      (small conv sig maj formed : Bool) (f : Features)
      → check mapped ≡ formed
      → ((outcome small conv sig maj formed f ≡ ok true) × Passes small conv sig maj formed f)
        ⊎ ((outcome small conv sig maj formed f ≡ err einval)
            × (¬ Passes small conv sig maj formed f))
  outcome_cases true conv sig maj formed f e = inr (refl, λ h. differ h.0)
  outcome_cases false false sig maj formed f e = inr (refl, λ h. differ (sym h.1))
  outcome_cases false true false maj formed f e = inr (refl, λ h. differ (sym h.2))
  outcome_cases false true true false formed f e = inr (refl, λ h. differ (sym h.3))
  outcome_cases false true true true false f e = inr (refl, λ h. differ (sym h.4))
  outcome_cases false true true true true unknown_incompat e = inr (refl, λ h. h.5 refl)
  outcome_cases false true true true true unknown_ro_compat e =
      inl (ap ok e, (refl, refl, refl, refl, refl, λ t. cc))
  outcome_cases false true true true true supported e =
      inl (ap ok e, (refl, refl, refl, refl, refl, λ t. cc))

  abbrev hdr : List ℕ
  hdr = load m 0 hdr_size

  abbrev Accepted : Type 0
  Accepted =
      Passes (ltb size min_log_pool) (convert_hdr hdr) (same_at hdr 0 log_signature)
        (word hdr hdr_major_off == log_major) (check mapped) (feature_check hdr 0 0)

  run :
      check_log_file size m
      ≡ outcome
          (ltb size min_log_pool)
          (convert_hdr hdr)
          (same_at hdr 0 log_signature)
          (word hdr hdr_major_off == log_major)
          (check mapped)
          (feature_check hdr 0 0)
  unfolding check_log_file map_log open_log
  run = rw (check_offsets-check mapped) refl

  Accepted-IsLogFile : Accepted ↔ IsLogFile size m
  Accepted-IsLogFile = (
    λ h. record {
      large = ground (arith, h.0);
      converted = h.1;
      signed = h.2;
      major = ground (arith, h.3);
      known = h.5;
      formed = (check-IsLog mapped).0 h.4;
    },
    λ g. (
      ground (arith, g.large),
      g.converted,
      g.signed,
      ground (arith, g.major),
      (check-IsLog mapped).1 g.formed,
      g.known,
    ),
  )

  -- pmemlog_check of a file finds a consistent pool, and then the file is a log pool; or it fails with
  -- EINVAL, and then it is none. It never finds that a pool is not consistent.
  pub check_log_file-IsLogFile :
      ((check_log_file size m ≡ ok true) × IsLogFile size m)
      ⊎ ((check_log_file size m ≡ err einval) × (¬ IsLogFile size m))
  check_log_file-IsLogFile = rw run (elim cases [
    | inl (e, h) ↦ inl (e, Accepted-IsLogFile.0 h)
    | inr (e, h) ↦ inr (e, λ g. h (Accepted-IsLogFile.1 g))
  ])
    where
      cases :
          ((outcome
                (ltb size min_log_pool)
                (convert_hdr hdr)
                (same_at hdr 0 log_signature)
                (word hdr hdr_major_off == log_major)
                (check mapped)
                (feature_check hdr 0 0)
              ≡ ok true)
            × Accepted)
          ⊎ ((outcome
                  (ltb size min_log_pool)
                  (convert_hdr hdr)
                  (same_at hdr 0 log_signature)
                  (word hdr hdr_major_off == log_major)
                  (check mapped)
                  (feature_check hdr 0 0)
                ≡ err einval)
              × (¬ Accepted))
      cases =
          outcome_cases (ltb size min_log_pool) (convert_hdr hdr) (same_at hdr 0 log_signature)
            (word hdr hdr_major_off == log_major) (check mapped) (feature_check hdr 0 0) refl
