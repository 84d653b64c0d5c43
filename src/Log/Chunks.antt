-- ===== src/Log/Chunks.antt =====
-- What pmemlog_walk of src/libpmemlog/log.c shows to its callback.
use nvml.Base.{
  ℕ, zero, suc, ◌+◌, ◌-◌, ◌^◌, ◌≤◌, ◌<◌, ◌≡◌, ◌⊎◌, refl, sym, ap, ◌∙◌, inl, inr, List, [], ◌∷◌,
  ◌++◌, Bool, length, min, ◌==◌, if◌then◌else◌, Bool-cases, false, arith,
}
use nvml.Base.Memory.{Mem, load, length-load}
use nvml.Base.Words64.{get64-lt, load-add}
use nvml.Base.Outcome.{ok}
use mathlib.Core.List.{flatten}
use nvml.Namespace.{u64, sub64}
use nvml.Log.{Log, write_offset, data_start}
use nvml.Log.Walk.{walk_from, walk}
use nvml.Log.View.{IsLog, contents}

-- Each piece has `n` bytes, or all that are left if they are fewer, and at least one.
unfoldable pub IsChunked : ℕ → List (List ℕ) → Type 0
IsChunked n [] = Unit {0}
IsChunked n (c ∷ cs) =
    (length c ≡ min n (length (c ++ flatten cs))) × (0 < length c) × IsChunked n cs

module _ {ℓ} {A : Type ℓ} (process_chunk : List ℕ → A → Bool × A) where
  -- The callback on one piece after the other, until it says to stop.
  unfoldable pub visit : List (List ℕ) → A → A
  visit [] arg = arg
  visit (c ∷ cs) arg =
      let (more, arg') = process_chunk c arg in
      let rest = visit cs arg' in if more then rest else arg'

  module _ (m : Mem) (n w : ℕ) (pos : 0 < n) (small : w + n ≤ 2 ^ 64) where
    load_first :
        (off : ℕ)
        → off < w
        → load m off (w - off) ≡ load m off (min n (w - off)) ++ load m (off + n) (w - (off + n))
    unfolding load
    load_first off lt = elim (first_cases (w - off)) [
      | inl le ↦
          rw (whole le) (load-add m off n (w - (off + n)) (w - off) (off + n) (omega arith) refl)
      | inr gt ↦
          rw (part gt, last gt)
            (load-add m off (w - off) 0 (w - off) (off + (w - off)) (omega arith) refl)
    ]
      where
        first_cases : (k : ℕ) → (n ≤ k) ⊎ (k < n)
        first_cases k = grind arith

        whole : n ≤ w - off → min n (w - off) ≡ n
        whole le = omega arith

        part : w - off < n → min n (w - off) ≡ w - off
        part gt = omega arith

        last : w - off < n → w - (off + n) ≡ 0
        last gt = omega arith

    abbrev Shown : ℕ → ℕ → A → Type ℓ
    Shown fuel off arg =
        (cs : List (List ℕ)) × (flatten cs ≡ load m off (w - off))
        × IsChunked n cs
        × (walk_from process_chunk fuel m n w off arg ≡ ok (visit cs arg))

    no_more : (off : ℕ) → w ≤ off → load m off (w - off) ≡ []
    unfolding load
    no_more off le = let e : w - off ≡ 0 = omega arith in rw e refl

    walk_from_end : (fuel off : ℕ) (arg : A) → w ≤ off → Shown (suc fuel) off arg
    unfolding walk_from visit IsChunked flatten
    walk_from_end fuel off arg le = ([], sym (no_more off le), tt, ground arith)

    walk_from_next :
        (fuel off : ℕ) (arg : A)
        → off < w
        → Shown fuel (off + n) (process_chunk (load m off (min n (w - off))) arg).1
        → Shown (suc fuel) off arg
    unfolding walk_from visit IsChunked flatten
    walk_from_next fuel off arg lt (cs, all, pieces, run) = (
      c ∷ cs,
      joined,
      (
        omega (
          arith,
          ap length joined,
          length-load m off (w - off),
          length-load m off (min n (w - off)),
        ),
        omega (arith, length-load m off (min n (w - off))),
        pieces,
      ),
      rw (next, run)
          (elim (Bool-cases (process_chunk c arg).0) [
            | inl e ↦ ground arith
            | inr e ↦ ground arith
          ]),
    )
      where
        c : List ℕ
        c = load m off (min n (w - off))

        joined : c ++ flatten cs ≡ load m off (w - off)
        joined = ap (λ xs. c ++ xs) all ∙ sym (load_first off lt)

        next : u64 (off + n) ≡ off + n
        next = omega arith

    pub walk_from_lem : (fuel off : ℕ) (arg : A) → w - off < fuel → Shown fuel off arg
    walk_from_lem zero off arg h = absurd (omega arith)
    walk_from_lem (suc fuel) off arg h = elim (cases off) [
      | inl le ↦ walk_from_end fuel off arg le
      | inr lt ↦ walk_from_next fuel off arg lt (walk_from_lem fuel (off + n) _ (omega arith))
    ]
      where
        cases : (off : ℕ) → (w ≤ off) ⊎ (off < w)
        cases off = grind arith

  -- Walking a well-formed log by chunks shows the callback pieces of the chunk size, the last one
  -- perhaps shorter, which together are the bytes appended so far, in their order and until the
  -- callback stops the walk; a chunk size of 0 shows them all at once. The walk returns, provided
  -- that the write offset and the chunk size together do not pass 2 ^ 64.
  pub walk-contents :
      (l : Log) (chunksize : ℕ) (arg : A)
      → IsLog l
      → write_offset l + chunksize ≤ 2 ^ 64
      → (walk process_chunk 0 l arg ≡ ok (process_chunk (contents l) arg).1)
        × (0 < chunksize
            → (cs : List (List ℕ)) × (flatten cs ≡ contents l)
              × IsChunked chunksize cs
              × (walk process_chunk chunksize l arg ≡ ok (visit cs arg)))
  unfolding walk
  walk-contents l chunksize arg g small = (
    rw (g.starts, len) refl,
    λ pos.
        let (cs, all, pieces, run) =
          walk_from_lem l.mem chunksize (write_offset l) pos small (suc (write_offset l)) data_start
            arg (omega arith) in
        let some_size : (chunksize == 0) ≡ false = ground arith in
        (cs, all, pieces, rw (some_size, g.starts) run),
  )
    where
      len : sub64 (write_offset l) data_start ≡ write_offset l - data_start
      len = omega (arith, g.above, get64-lt l.mem 4112)
