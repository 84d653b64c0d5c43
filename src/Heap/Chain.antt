-- ===== src/Heap/Chain.antt =====
-- The chunk headers of a zone: what check_zone of src/libpmemobj/backend_persistent.c tests, and
-- what the splitting of a chunk leaves of it at any moment.
use nvml.Base.{
  ℕ, zero, suc, ◌+◌, ◌%◌, ◌^◌, ◌<◌, ◌≤◌, ◌≡◌, ◌≢◌, ◌⊎◌, ◌↔◌, sym, ap, ◌∙◌, inl, inr, true, arith,
}
use native.Mathlib.Decide.{dec_lt, ℕ_discrete}
use nvml.Heap.{ChunkHeader, chunk_header_magic}
use nvml.Heap.Zones.{max_chunk_type, check_chunks, check_zone}

-- A header that is marked, of a known type, and of a size that is not 0 nor larger than the zone.
pub record IsChunk (n : ℕ) (c : ChunkHeader) : Type 0 where
  pub marked : c.magic ≡ chunk_header_magic
  pub typed : (0 < c.type) × (c.type ≤ max_chunk_type)
  pub sized : (0 < c.size_idx) × (c.size_idx ≤ n)

-- From `i` each chunk begins where the one before ends, and the last one ends with the zone.
pub data Chain (chunks : ℕ → ChunkHeader) (n : ℕ) : ℕ → Type 0 where
  at_end : {i : ℕ} → i ≡ n → Chain chunks n i
  next :
      {i : ℕ}
      → i < n
      → IsChunk n (chunks i)
      → Chain chunks n (i + (chunks i).size_idx)
      → Chain chunks n i

pub no_wrap : (k : ℕ) → k < 2 ^ 32 → k % 2 ^ 32 ≡ k
no_wrap k h = omega arith

module _ (chunks : ℕ → ChunkHeader) (n : ℕ) (small : n < 2 ^ 31) where
  check_step :
      (fuel i : ℕ)
      → i < n
      → IsChunk n (chunks i)
      → check_chunks (suc fuel) chunks n i ≡ check_chunks fuel chunks n (i + (chunks i).size_idx)
  unfolding check_chunks
  check_step fuel i lt c = ground (
    arith,
    c.marked,
    c.typed,
    c.sized,
    ap (check_chunks fuel chunks n) (no_wrap (i + (chunks i).size_idx) (omega (arith, c.sized.1))),
  )

  accepted-IsChunk :
      (fuel i : ℕ)
      → check_chunks (suc fuel) chunks n i ≡ true
      → i < n
      → (chunks i).magic ≡ chunk_header_magic
      → IsChunk n (chunks i)
  unfolding check_chunks
  accepted-IsChunk fuel i e lt m = record { marked = m; typed = ground arith; sized = ground arith }

  accepted :
      (fuel i : ℕ)
      → check_chunks fuel chunks n i ≡ true
      → Chain chunks n i ⊎ ((i ≡ 0) × (0 < n) × ((chunks 0).magic ≢ chunk_header_magic))
  unfolding check_chunks
  accepted zero i e = absurd cc
  accepted (suc fuel) i e = elim (dec_lt i n) [
    | no ge ↦ inl (at_end (ground arith))
    | yes lt ↦ elim (ℕ_discrete (chunks i).magic chunk_header_magic) [
      | no ne ↦
          let first : i ≡ 0 = ground arith in
          inr (first, omega arith, λ m. ne (ap (λ t. (chunks t).magic) first ∙ m))
      | yes m ↦
          let c : IsChunk n (chunks i) = accepted-IsChunk fuel i e lt m in
          elim (accepted fuel (i + (chunks i).size_idx) (sym (check_step fuel i lt c) ∙ e)) [
            | inl rest ↦ inl (next lt c rest)
            | inr (z, _, _) ↦ absurd (omega (arith, c.sized.0))
          ]
    ]
  ]

  chain_accepted :
      (fuel i : ℕ) → Chain chunks n i → n < i + fuel → check_chunks fuel chunks n i ≡ true
  unfolding check_chunks
  chain_accepted zero i (at_end e) lt = absurd (omega arith)
  chain_accepted (suc fuel) i (at_end e) lt = ground arith
  chain_accepted zero i (next below c rest) lt = absurd (omega arith)
  chain_accepted (suc fuel) i (next below c rest) lt =
      check_step fuel i below c
      ∙ chain_accepted fuel (i + (chunks i).size_idx) rest (omega (arith, c.sized.0))

  unmarked_accepted :
      (fuel : ℕ)
      → 0 < n
      → (chunks 0).magic ≢ chunk_header_magic
      → check_chunks (suc fuel) chunks n 0 ≡ true
  unfolding check_chunks
  unmarked_accepted fuel pos ne = ground arith

  -- check_zone accepts a zone of less than 2^31 chunks exactly if its chunks follow on one another
  -- from the first to the end of the zone, or its first header is not marked (and it has one).
  pub check_zone_iff :
      (check_zone chunks n ≡ true)
      ↔ (Chain chunks n 0 ⊎ ((0 < n) × ((chunks 0).magic ≢ chunk_header_magic)))
  unfolding check_zone
  check_zone_iff = (
    λ e. elim (accepted (n + 1) 0 e) [ inl c ↦ inl c | inr (_, pos, ne) ↦ inr (pos, ne) ],
    λ h. elim h [
      | inl c ↦ chain_accepted (n + 1) 0 c (omega arith)
      | inr (pos, ne) ↦
          ap (λ t. check_chunks t chunks n 0) (omega arith) ∙ unmarked_accepted n pos ne
    ],
  )
