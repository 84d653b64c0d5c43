-- ===== src/Heap/Split.antt =====
-- Splitting a chunk in src/libpmemobj/backend_persistent.c: the zone stays consistent store by store.
use nvml.Base.{
  ℕ, ◌+◌, ◌-◌, ◌<◌, ◌≤◌, ◌≡◌, refl, sym, ap, subst, ◌∙◌, inl, [], true, if_true, if_false, ltb,
  ◌==◌, arith,
}
use native.Mathlib.Decide.{dec_lt}
use nvml.Namespace.{u32}
use nvml.Heap.{
  ChunkHeader, BackendPool, Heap, header_stored, chunk_header_magic, max_chunk, set_at, header,
  apply, persist,
}
use nvml.Heap.Backend.{
  base_header, split_chunk, add_chunk, add_block, set_chunk_size, write_chunk_header,
}
use nvml.Heap.Zones.{check_zone}
use nvml.Heap.Crash.{Leaves, Throughout, start-Throughout, persist-Throughout}
use nvml.Heap.Chain.{IsChunk, Chain, at_end, next, check_zone_iff}

-- The chunks from `i` to the end of the zone, one of which begins at `c`.
pub data Passes (chunks : ℕ → ChunkHeader) (n c : ℕ) : ℕ → Type 0 where
  here :
      {i : ℕ}
      → i ≡ c
      → i < n
      → IsChunk n (chunks i)
      → Chain chunks n (i + (chunks i).size_idx)
      → Passes chunks n c i
  later :
      {i : ℕ}
      → i < n
      → IsChunk n (chunks i)
      → Passes chunks n c (i + (chunks i).size_idx)
      → Passes chunks n c i

-- A header that is the same in both.
next_same :
    (f g : ℕ → ChunkHeader) (n i : ℕ)
    → g i ≡ f i
    → i < n
    → IsChunk n (f i)
    → Chain g n (i + (f i).size_idx)
    → Chain g n i
next_same f g n i e lt is rest =
    next lt (subst (IsChunk n) (sym e) is)
      (subst (λ (hdr : ChunkHeader). Chain g n (i + hdr.size_idx)) (sym e) rest)

module _ (f : ℕ → ChunkHeader) (n : ℕ) where
  forget : (c i : ℕ) → Passes f n c i → Chain f n i
  forget c i (here e lt is rest) = next lt is rest
  forget c i (later lt is rest) = next lt is (forget c _ rest)

  chain_le : (i : ℕ) → Chain f n i → i ≤ n
  chain_le i (at_end e) = omega arith
  chain_le i (next lt is rest) = omega arith

  Passes-le : (c i : ℕ) → Passes f n c i → i ≤ c
  Passes-le c i (here e lt is rest) = omega arith
  Passes-le c i (later lt is rest) = omega (arith, Passes-le c (i + (f i).size_idx) rest)

  at-IsChunk :
      (c i : ℕ) → Passes f n c i → IsChunk n (f c) × Chain f n (c + (f c).size_idx) × (c < n)
  at-IsChunk c i (here e lt is rest) =
      subst (λ t. IsChunk n (f t) × Chain f n (t + (f t).size_idx) × (t < n)) e (is, rest, lt)
  at-IsChunk c i (later lt is rest) = at-IsChunk c _ rest

  -- A change below `i` does not matter from `i` on.
  chain_above :
      (d : ℕ) (hdr : ChunkHeader) (i : ℕ) → d < i → Chain f n i → Chain (set_at f d hdr) n i
  chain_above d hdr i lt (at_end e) = at_end e
  chain_above d hdr i lt (next below is rest) =
      next_same f (set_at f d hdr) n i (if_false (i == d) hdr (f i) (ground arith)) below is
        (chain_above d hdr (i + (f i).size_idx) (omega arith) rest)

  -- A header inside of a chunk may be anything.
  pub Passes-inside :
      (c d : ℕ) (hdr : ChunkHeader) (i : ℕ)
      → c < d
      → d < c + (f c).size_idx
      → Passes f n c i
      → Passes (set_at f d hdr) n c i
  Passes-inside c d hdr i lo hi (here e lt is rest) =
      let same : set_at f d hdr i ≡ f i = if_false (i == d) hdr (f i) (ground arith) in
      let ends : i + (f i).size_idx ≡ c + (f c).size_idx = ap (λ t. t + (f t).size_idx) e in
      here e lt (subst (IsChunk n) (sym same) is) (
        subst (λ (h : ChunkHeader). Chain (set_at f d hdr) n (i + h.size_idx)) (sym same)
          (chain_above d hdr (i + (f i).size_idx) (omega arith) rest))
  Passes-inside c d hdr i lo hi (later lt is rest) =
      let same : set_at f d hdr i ≡ f i =
        if_false (i == d) hdr (f i) (ground (arith, Passes-le c (i + (f i).size_idx) rest)) in
      later lt (subst (IsChunk n) (sym same) is) (
        subst (λ (h : ChunkHeader). Passes (set_at f d hdr) n c (i + h.size_idx)) (sym same)
          (Passes-inside c d hdr (i + (f i).size_idx) lo hi rest))

  -- A chunk is cut short where the rest of it is a chunk.
  pub chain_cut :
      (c units : ℕ) (i : ℕ)
      → 0 < units
      → units < (f c).size_idx
      → c + (f c).size_idx ≤ n
      → IsChunk n (f (c + units))
      → (f (c + units)).size_idx ≡ (f c).size_idx - units
      → Passes f n c i
      → Chain (set_at f c (record (f c) { size_idx = units })) n i
  chain_cut c units i pos lt inside rest_is rest_size (here e below is rest) =
      subst (Chain (set_at f c (record (f c) { size_idx = units })) n) (sym e) whole
    where
      g : ℕ → ChunkHeader
      g = set_at f c (record (f c) { size_idx = units })

      cut : g c ≡ record (f c) { size_idx = units }
      cut = if_true (c == c) _ (f c) (ground arith)

      chunk : IsChunk n (f c)
      chunk = subst (λ t. IsChunk n (f t)) e is

      other : g (c + units) ≡ f (c + units)
      other = if_false (c + units == c) _ (f (c + units)) (ground arith)

      behind : Chain g n (c + units + (f (c + units)).size_idx)
      behind = subst (Chain g n) (omega arith) (
          chain_above c (record (f c) { size_idx = units }) (c + (f c).size_idx) (omega arith)
            (subst (λ t. Chain f n (t + (f t).size_idx)) e rest))

      short : IsChunk n (record (f c) { size_idx = units })
      short = record { marked = chunk.marked; typed = chunk.typed; sized = omega arith }

      whole : Chain g n c
      whole = next (omega arith) (subst (IsChunk n) (sym cut) short) (
          subst (λ (hdr : ChunkHeader). Chain g n (c + hdr.size_idx)) (sym cut)
            (next_same f g n (c + units) other (omega (arith, rest_is.sized)) rest_is behind))
  chain_cut c units i pos lt inside rest_is rest_size (later below is rest) =
      next_same f (set_at f c (record (f c) { size_idx = units })) n i
        (if_false (i == c) _ (f i)
          (ground (arith, is.sized, Passes-le c (i + (f i).size_idx) rest)))
        below is (chain_cut c units (i + (f i).size_idx) pos lt inside rest_is rest_size rest)

-- The headers of the zone after a store of one of them.
header-apply :
    (z d : ℕ) (hdr : ChunkHeader) (p : BackendPool)
    → header (apply (header_stored z d hdr) p) z ≡ set_at (header p z) d hdr
unfolding apply
header-apply z d hdr p = ap (λ t. t.chunk_header) (if_true (z == z) _ (p.zone z) (ground arith))

module _ (z c n units : ℕ) (h : Heap) (unstored : h.events ≡ []) (small : n ≤ max_chunk)
    (on : Passes (header h.pool z) n c 0) (pos : 0 < units) where
  inside : c + (header h.pool z c).size_idx ≤ n
  inside = chain_le (header h.pool z) n _ (at-IsChunk (header h.pool z) n c 0 on).1

  abbrev Accepts : BackendPool → Type 0
  Accepts p = check_zone (header p z) n ≡ true

  accepts : (p : BackendPool) → Chain (header p z) n 0 → Accepts p
  accepts p chain = (check_zone_iff (header p z) n (omega arith)).1 (inl chain)

  unsplit : Throughout Accepts h.pool h
  unsplit = start-Throughout Accepts h unstored (accepts h.pool (forget (header h.pool z) n c 0 on))

  abbrev old : ℕ
  old = (header h.pool z c).size_idx

  module _ (lt : units < old) where
    abbrev d : ℕ
    d = u32 (c + units)

    is_d : d ≡ c + units
    is_d = omega (arith, inside)

    abbrev unmarked : ChunkHeader
    unmarked = base_header 0 (old - units)

    abbrev marked : ChunkHeader
    marked = base_header chunk_header_magic (old - units)

    abbrev first : Heap
    first = persist (header_stored z d unmarked) h

    abbrev second : Heap
    second = persist (header_stored z d marked) first

    first_on : Passes (header first.pool z) n c 0
    unfolding persist
    first_on =
        subst (λ f. Passes f n c 0) (sym (header-apply z d unmarked h.pool))
          (Passes-inside (header h.pool z) n c d unmarked 0 (omega (arith, is_d))
            (omega (arith, is_d)) on)

    store_other :
        (hdr : ChunkHeader) (p : BackendPool)
        → header (apply (header_stored z d hdr) p) z c ≡ header p z c
    store_other hdr p =
        ap (λ f. f c) (header-apply z d hdr p)
        ∙ if_false (c == d) hdr (header p z c) (ground (arith, is_d))

    same_first : header first.pool z c ≡ header h.pool z c
    unfolding persist
    same_first = store_other unmarked h.pool

    same_second : header second.pool z c ≡ header h.pool z c
    unfolding persist
    same_second = store_other marked first.pool ∙ same_first

    second_on : Passes (header second.pool z) n c 0
    unfolding persist
    second_on =
        subst (λ f. Passes f n c 0) (sym (header-apply z d marked first.pool))
          (Passes-inside (header first.pool z) n c d marked 0 (omega (arith, is_d))
            (omega (arith, is_d, ap (λ t. t.size_idx) same_first)) first_on)

    there : header second.pool z (c + units) ≡ marked
    unfolding persist
    there =
        ap (λ f. f (c + units)) (header-apply z d marked first.pool)
        ∙ if_true (c + units == d) marked _ (ground (arith, is_d))

    abbrev cut : ChunkHeader
    cut = record (header second.pool z c) { size_idx = units }

    third_chain : Chain (header (apply (header_stored z c cut) second.pool) z) n 0
    third_chain =
        subst (λ f. Chain f n 0) (sym (header-apply z c cut second.pool))
          (chain_cut (header second.pool z) n c units 0 pos
            (omega (arith, inside, ap (λ t. t.size_idx) same_second))
            (omega (arith, inside, ap (λ t. t.size_idx) same_second))
            (subst (IsChunk n) (sym there)
              (record { marked = refl; typed = omega arith; sized = omega (arith, inside) }))
            (omega (arith, inside, ap (λ t. t.size_idx) there, ap (λ t. t.size_idx) same_second))
            second_on)

    store_torn : (k : Heap) → Accepts k.pool → (p : BackendPool) → p ≡ k.pool → Accepts p
    store_torn k holds p e = subst Accepts (sym e) holds

    split : Throughout Accepts h.pool (set_chunk_size z c units second)
    unfolding set_chunk_size persist
    split =
        persist-Throughout Accepts h.pool (header_stored z c cut) second
          (persist-Throughout Accepts h.pool (header_stored z d marked) first
            (persist-Throughout Accepts h.pool (header_stored z d unmarked) h unsplit
              (store_torn h (accepts h.pool (forget (header h.pool z) n c 0 on))) first_accepts)
            (store_torn first first_accepts) second_accepts)
          (store_torn second second_accepts)
          (accepts (apply (header_stored z c cut) second.pool) third_chain)
      where
        first_accepts : Accepts first.pool
        first_accepts = accepts first.pool (forget (header first.pool z) n c 0 first_on)

        second_accepts : Accepts second.pool
        second_accepts = accepts second.pool (forget (header second.pool z) n c 0 second_on)

  -- Let the chunks of a zone, at most 65535, follow on one another, let nothing be stored yet, and
  -- let the chunk at `c` be one of them. Whatever a power failure leaves of its splitting into
  -- `units` units, one or more, and the rest, check_zone accepts the zone.
  pub split_chunk-Leaves :
      (p : BackendPool)
      → Leaves h.pool (split_chunk z c units h).events p
      → check_zone (header p z) n ≡ true
  unfolding split_chunk add_chunk add_block write_chunk_header
  split_chunk-Leaves p left = elim (dec_lt units old) [
    | yes lt ↦ (split lt).left p (
        subst (λ (k : Heap). Leaves h.pool k.events p) (if_true (ltb units old) _ h (ground arith))
          left)
    | no ge ↦ unsplit.left p (
        subst (λ (k : Heap). Leaves h.pool k.events p) (if_false (ltb units old) _ h (ground arith))
          left)
  ]
