-- ===== src/Log/Open.antt =====
-- pmemlog_map_common of src/libpmemlog/log.c on a mapped file: the header, the offsets, and what
-- creating a pool writes. The lock and the mapping are left out.
use nvml.Base.{ℕ, List, [], ◌∷◌, Bool, true, not, ◌==◌, if◌then◌else◌}
use nvml.Base.Memory.{Mem, load, store, word}
use nvml.Base.Outcome.{Run, Result, pure, fail, einval, ◌>>◌}
use nvml.Header.{
  convert_hdr, feature_check, Features, unknown_incompat, unknown_ro_compat, supported, is_zeroed,
  new_hdr, hdr_size, hdr_major_off,
}
use nvml.Btt.InfoBlock.{same_at}
use nvml.Log.{Log, check_offsets, format}

-- LOG_HDR_SIG, "PMEMLOG"
abbrev pub log_signature : List ℕ
log_signature = 80 ∷ 77 ∷ 69 ∷ 77 ∷ 76 ∷ 79 ∷ 71 ∷ 0 ∷ []

abbrev pub log_major : ℕ
log_major = 1

-- The features of the pool: an error, or whether it is read-only.
abbrev pub with_features : Features → Run Log (Unit {0})
with_features unknown_incompat l = fail einval l
with_features unknown_ro_compat l = pure tt (record l { rdonly = true })
with_features supported l = pure tt l

-- The checks on an existing pool.
unfoldable pub open_log : ℕ → Run Log (Unit {0})
open_log poolsize l =
    let hdr = load l.mem 0 hdr_size in
    if not (convert_hdr hdr)
    then fail einval l
    else if not (same_at hdr 0 log_signature)
    then fail einval l
    else if not (word hdr hdr_major_off == log_major)
    then fail einval l
    else (check_offsets poolsize >> with_features (feature_check hdr 0 0)) l

-- What creating a pool writes: the offsets, and then the header with the UUID and the time.
unfoldable pub create_log : List ℕ → ℕ → ℕ → Run Log (Unit {0})
create_log uuid crtime poolsize l =
    if not (is_zeroed (load l.mem 0 hdr_size))
    then fail einval l
    else let l' = format poolsize l in
      pure tt (record l' { mem = store l'.mem 0 (new_hdr log_signature log_major uuid crtime) })

-- The pool of a mapping.
unfoldable pub map_log : List ℕ → ℕ → ℕ → Bool → Bool → Mem → Result (Unit {0}) × Log
map_log uuid crtime poolsize rdonly empty m =
    let l : Log = record { mem = m; size = poolsize; rdonly = rdonly } in
    if empty then create_log uuid crtime poolsize l else open_log poolsize l
