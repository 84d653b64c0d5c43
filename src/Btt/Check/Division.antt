-- ===== src/Btt/Check/Division.antt =====
-- check_arena of src/libpmemblk/btt.c against the division of an arena's blocks among its map and
-- its free lists.
use nvml.Base.{
  ℕ, zero, suc, ◌+◌, ◌-◌, ◌*◌, ◌≤◌, ◌<◌, ◌≡◌, ◌≢◌, ◌↔◌, ◌⊎◌, refl, sym, ap, ◌∙◌, inl, inr, Bool,
  true, false, ◌&&◌, ltb, leb, replicate, if◌then◌else◌, arith,
}
use nvml.Base.Memory.{load, word, get32, get32-lt, word-load}
use nvml.Base.Outcome.{ok}
use nvml.Namespace.{nsmap, u64}
use nvml.Btt.{Btt, Arena, Dev, flog_at}
use nvml.Btt.Entry.{is_initial_lem, entry_lba-mod}
use nvml.Btt.View.{IsLaidOut, map_word, block_of, free_of}
use nvml.Btt.Check.{
  Seen, Window, see, dev_map, next_window, entry_block, check_map, check_flogs, all_seen,
  check_arena,
}
use nvml.Btt.Check.Bitmap.{see_from, see_from_same, see_from-add, Distinct, full_iff}

-- The blocks of an arena are divided: every block is named once, by the map or by a free list.
pub record IsDivided (b : Btt) (a : Arena) (m : ℕ → ℕ) : Type 0 where
  pub mapped_apart :
      (i j : ℕ)
      → i < a.external_nlba
      → j < a.external_nlba
      → block_of a m i ≡ block_of a m j
      → i ≡ j
  pub free_apart : (k l : ℕ) → k < b.nfree → l < b.nfree → free_of a k ≡ free_of a l → k ≡ l
  pub mapped_not_free : (i k : ℕ) → i < a.external_nlba → k < b.nfree → block_of a m i ≢ free_of a k
  pub all_named : a.external_nlba + b.nfree ≡ a.internal_nlba

-- The blocks in the order in which check_arena meets them.
abbrev owner : Arena → (ℕ → ℕ) → ℕ → ℕ
owner a m k = if ltb k a.external_nlba then block_of a m k else free_of a (k - a.external_nlba)

module _ (b : Btt) (a : Arena) (m : ℕ → ℕ) where
  mapped_owner : (i : ℕ) → i < a.external_nlba → owner a m i ≡ block_of a m i
  mapped_owner i h = let e : ltb i a.external_nlba ≡ true = ground arith in rw e refl

  free_owner : (k : ℕ) → a.external_nlba ≤ k → owner a m k ≡ free_of a (k - a.external_nlba)
  free_owner k h = let e : ltb k a.external_nlba ≡ false = ground arith in rw e refl

  next_owner : (k : ℕ) → owner a m (a.external_nlba + k) ≡ free_of a k
  next_owner k = free_owner (a.external_nlba + k) (omega arith) ∙ ap (free_of a) (omega arith)

  IsDivided-iff :
      (Distinct (owner a m) (a.external_nlba + b.nfree)
        × (a.external_nlba + b.nfree ≡ a.internal_nlba))
      ↔ IsDivided b a m
  IsDivided-iff = (
    λ (dist, n). record {
      mapped_apart = λ i j hi hj e.
          dist i j (omega arith) (omega arith) (mapped_owner i hi ∙ e ∙ sym (mapped_owner j hj));
      free_apart = λ k l hk hl e. omega (
        arith,
        dist (a.external_nlba + k) (a.external_nlba + l) (omega arith) (omega arith)
            (next_owner k ∙ e ∙ sym (next_owner l)),
      );
      mapped_not_free = λ i k hi hk e. omega (
        arith,
        dist i (a.external_nlba + k) (omega arith) (omega arith)
            (mapped_owner i hi ∙ e ∙ sym (next_owner k)),
      );
      all_named = n;
    },
    λ h. (λ k l hk hl e. distinct h k l hk hl e, h.all_named),
  )
    where
      cases : (k : ℕ) → (k < a.external_nlba) ⊎ (a.external_nlba ≤ k)
      cases k = grind arith

      distinct : IsDivided b a m → Distinct (owner a m) (a.external_nlba + b.nfree)
      distinct h k l hk hl e = elim (cases k) [
        | inl km ↦ elim (cases l) [
          | inl lm ↦ h.mapped_apart k l km lm (sym (mapped_owner k km) ∙ e ∙ mapped_owner l lm)
          | inr lf ↦ absurd (
              h.mapped_not_free k (l - a.external_nlba) km (omega arith)
                (sym (mapped_owner k km) ∙ e ∙ free_owner l lf))
        ]
        | inr kf ↦ elim (cases l) [
          | inl lm ↦ absurd (
              h.mapped_not_free l (k - a.external_nlba) lm (omega arith)
                (sym (mapped_owner l lm) ∙ sym e ∙ free_owner k kf))
          | inr lf ↦ omega (
            arith,
            h.free_apart (k - a.external_nlba) (l - a.external_nlba) (omega arith) (omega arith)
                (sym (free_owner k kf) ∙ e ∙ free_owner l lf),
          )
        ]
      ]

module _ (b : Btt) (d : Dev) (g : IsLaidOut b d.arena d.ns.datasize) (lanes : 0 < b.nfree)
    (mapped_in : (i : ℕ)
      → i < d.arena.external_nlba
      → block_of d.arena d.ns.mem i < d.arena.internal_nlba)
    (free_in : (k : ℕ) → k < b.nfree → free_of d.arena k < d.arena.internal_nlba) where
  abbrev window : ℕ → ℕ → Window
  window left i = record { mapp = d.arena.mapoff; next_index = i; remaining = left * 4 }

  same_at_zero : (i : ℕ) → get32 d.ns.mem (d.arena.mapoff + 4 * i + 0) ≡ map_word d.arena d.ns.mem i
  same_at_zero i = ap (get32 d.ns.mem) (omega arith)

  entry_block_lem :
      (i : ℕ)
      → entry_block i (word (load d.ns.mem (d.arena.mapoff + 4 * i) 4) 0)
        ≡ block_of d.arena d.ns.mem i
  unfolding entry_block
  entry_block_lem i = ground (
    arith,
    word-load d.ns.mem (d.arena.mapoff + 4 * i) 4 0 (omega arith),
    same_at_zero i,
    is_initial_lem (map_word d.arena d.ns.mem i) (get32-lt d.ns.mem (d.arena.mapoff + 4 * i)),
    entry_lba-mod (map_word d.arena d.ns.mem i),
  )

  first_window :
      (left : ℕ)
      → suc left ≡ d.arena.external_nlba
      → next_window (suc left) d.arena.mapoff (record { mapp = 0; next_index = 0; remaining = 0 }) d
        ≡ (ok (window (suc left) 0), d)
  unfolding next_window dev_map nsmap
  first_window left e = ground arith

  same_window :
      (left i off : ℕ)
      → next_window (suc left) off (window (suc left) i) d ≡ (ok (window (suc left) i), d)
  unfolding next_window
  same_window left i off = ground arith

  check_map_lem :
      (left i off : ℕ) (s : Seen)
      → i + left ≡ d.arena.external_nlba
      → check_map left i off (window left i) s d
        ≡ (ok (see_from (block_of d.arena d.ns.mem) left i s), d)
  unfolding check_map see_from
  check_map_lem zero i off s e = refl
  check_map_lem (suc left) i off s e =
      let inside : leb d.arena.internal_nlba (block_of d.arena d.ns.mem i) ≡ false =
        ground (arith, mapped_in i (omega arith)) in
      let shrink : suc left * 4 - 4 ≡ left * 4 = omega arith in
      rw (same_window left i off, entry_block_lem i, inside, shrink)
        (check_map_lem left (i + 1) (u64 (off + 4)) (see (block_of d.arena d.ns.mem i) s)
          (omega arith))

  check_flogs_lem :
      (left i : ℕ) (s : Seen) → check_flogs d.arena left i s ≡ see_from (free_of d.arena) left i s
  unfolding check_flogs see_from
  check_flogs_lem zero i s = refl
  check_flogs_lem (suc left) i s =
      rw (entry_lba-mod (flog_at d.arena i).flog.old_map)
        (check_flogs_lem left (i + 1) (see (free_of d.arena i) s))

  -- The pass over the map, which asks for it once.
  map_pass :
      (left : ℕ) (s : Seen)
      → left ≡ d.arena.external_nlba
      → check_map left 0 d.arena.mapoff (record { mapp = 0; next_index = 0; remaining = 0 }) s d
        ≡ (ok (see_from (block_of d.arena d.ns.mem) left 0 s), d)
  unfolding check_map see_from
  map_pass zero s e = refl
  map_pass (suc left) s e =
      let inside : leb d.arena.internal_nlba (block_of d.arena d.ns.mem 0) ≡ false =
        ground (arith, mapped_in 0 (omega arith)) in
      let shrink : suc left * 4 - 4 ≡ left * 4 = omega arith in
      rw (first_window left e, entry_block_lem 0, inside, shrink)
        (check_map_lem left 1 (u64 (d.arena.mapoff + 4)) (see (block_of d.arena d.ns.mem 0) s)
          (omega arith))

  -- The pass over the map and then the free lists.
  both_passes :
      (s : Seen)
      → see_from
          (free_of d.arena)
          b.nfree
          0
          (see_from (block_of d.arena d.ns.mem) d.arena.external_nlba 0 s)
        ≡ see_from (owner d.arena d.ns.mem) (d.arena.external_nlba + b.nfree) 0 s
  both_passes s =
      sym (
        see_from_same (owner d.arena d.ns.mem) (free_of d.arena) b.nfree (0 + d.arena.external_nlba)
          0 _
          (λ k lt.
            ap (owner d.arena d.ns.mem) (omega arith)
            ∙ next_owner b d.arena d.ns.mem k
            ∙ ap (free_of d.arena) (omega arith))
        ∙ ap (λ t. see_from (free_of d.arena) b.nfree 0 t)
            (see_from_same (owner d.arena d.ns.mem) (block_of d.arena d.ns.mem)
              d.arena.external_nlba 0 0 s
              (λ k lt. mapped_owner b d.arena d.ns.mem (0 + k) (omega arith))))
      ∙ sym (see_from-add (owner d.arena d.ns.mem) d.arena.external_nlba b.nfree 0 s)

  owner_in :
      (k : ℕ)
      → k < d.arena.external_nlba + b.nfree
      → owner d.arena d.ns.mem k < d.arena.internal_nlba
  owner_in k lt = elim (cases k) [
    | inl km ↦ rw (mapped_owner b d.arena d.ns.mem k km) (mapped_in k km)
    | inr kf ↦
        rw (free_owner b d.arena d.ns.mem k kf) (free_in (k - d.arena.external_nlba) (omega arith))
  ]
    where
      cases : (k : ℕ) → (k < d.arena.external_nlba) ⊎ (d.arena.external_nlba ≤ k)
      cases k = grind arith

  -- In a laid out arena with a lane, whose map and free lists name blocks of the arena, check_arena
  -- changes nothing, and it finds the arena consistent exactly if every block is named once, by one
  -- map entry or by one free list.
  pub check_arena-IsDivided :
      (v : Bool) × (check_arena b d ≡ (ok v, d)) × ((v ≡ true) ↔ IsDivided b d.arena d.ns.mem)
  unfolding check_arena
  check_arena-IsDivided =
      let s : Seen = record { bitmap = replicate d.arena.internal_nlba false; consistent = true } in
      let n = d.arena.external_nlba + b.nfree in
      let seen : Seen = see_from (owner d.arena d.ns.mem) n 0 s in
      (
        seen.consistent && all_seen seen.bitmap,
        rw
            (
              map_pass d.arena.external_nlba s refl,
              check_flogs_lem b.nfree 0
                  (see_from (block_of d.arena d.ns.mem) d.arena.external_nlba 0 s),
              both_passes s,
            )
            refl,
        (
          λ e.
              (IsDivided-iff b d.arena d.ns.mem).0
                ((full_iff (owner d.arena d.ns.mem) d.arena.internal_nlba n owner_in).0 e),
          λ h.
              (full_iff (owner d.arena d.ns.mem) d.arena.internal_nlba n owner_in).1
                ((IsDivided-iff b d.arena d.ns.mem).1 h),
        ),
      )
