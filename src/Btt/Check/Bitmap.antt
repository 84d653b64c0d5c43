-- ===== src/Btt/Check/Bitmap.antt =====
-- The bitmap of check_arena in src/libpmemblk/btt.c: marking the values of a function in turn.
use nvml.Base.{
  ℕ, zero, suc, ◌+◌, ◌≤◌, ◌<◌, ◌≡◌, ◌≢◌, ◌↔◌, refl, sym, ap, ◌∙◌, inl, inr, List, [], ◌∷◌, Bool,
  true, false, ◌&&◌, length, length-set, get_or, get_or-set_self, get_or-set_ne, set, replicate,
  length-replicate, Bool-cases, arith,
}
use native.Mathlib.Decide.{ℕ_discrete}
use nvml.Btt.Check.{Seen, see, all_seen}

abbrev bit_count : Bool → ℕ
bit_count true = 1
bit_count false = 0

abbrev count_seen : List Bool → ℕ
count_seen [] = 0
count_seen (bit ∷ bits) = bit_count bit + count_seen bits

count_seen-set :
    (bits : List Bool) (x : ℕ)
    → x < length bits
    → get_or bits x false ≡ false
    → count_seen (set bits x true) ≡ suc (count_seen bits)
count_seen-set [] x lt e = absurd (omega arith)
count_seen-set (bit ∷ bits) zero lt e = rw e (omega arith)
count_seen-set (bit ∷ bits) (suc x) lt e = omega (arith, count_seen-set bits x (omega arith) e)

count_seen-le : (bits : List Bool) → count_seen bits ≤ length bits
count_seen-le [] = omega arith
count_seen-le (true ∷ bits) = omega (arith, count_seen-le bits)
count_seen-le (false ∷ bits) = omega (arith, count_seen-le bits)

all_seen-count : (bits : List Bool) → (all_seen bits ≡ true) ↔ (count_seen bits ≡ length bits)
unfolding all_seen
all_seen-count [] = (λ e. refl, λ e. refl)
all_seen-count (true ∷ bits) =
    (λ e. omega (arith, (all_seen-count bits).0 e), λ e. (all_seen-count bits).1 (omega arith))
all_seen-count (false ∷ bits) = (λ e. cc, λ e. absurd (omega (arith, count_seen-le bits)))

get_or-replicate : (n x : ℕ) → get_or (replicate n false) x false ≡ false
get_or-replicate zero x = refl
get_or-replicate (suc n) zero = refl
get_or-replicate (suc n) (suc x) = get_or-replicate n x

count_seen-replicate : (n : ℕ) → count_seen (replicate n false) ≡ 0
count_seen-replicate zero = refl
count_seen-replicate (suc n) = omega (arith, count_seen-replicate n)

-- Marks the `left` values from `f i` on.
unfoldable pub see_from : (ℕ → ℕ) → ℕ → ℕ → Seen → Seen
see_from f zero i s = s
see_from f (suc left) i s = see_from f left (i + 1) (see (f i) s)

pub see_from_same :
    (f g : ℕ → ℕ) (left i j : ℕ) (s : Seen)
    → ((k : ℕ) → k < left → f (i + k) ≡ g (j + k))
    → see_from f left i s ≡ see_from g left j s
unfolding see_from
see_from_same f g zero i j s e = refl
see_from_same f g (suc left) i j s e =
    let first : f i ≡ g j = ap f (omega arith) ∙ e 0 (omega arith) ∙ ap g (omega arith) in
    rw first (
      see_from_same f g left (i + 1) (j + 1) (see (g j) s)
        (λ k lt. ap f (omega arith) ∙ e (suc k) (omega arith) ∙ ap g (omega arith)))

pub see_from-add :
    (f : ℕ → ℕ) (n m i : ℕ) (s : Seen)
    → see_from f (n + m) i s ≡ see_from f m (i + n) (see_from f n i s)
unfolding see_from
see_from-add f zero m i s =
    let e : 0 + m ≡ m = omega arith in let d : i + 0 ≡ i = omega arith in rw (e, d) refl
see_from-add f (suc n) m i s =
    let e : suc n + m ≡ suc (n + m) = omega arith in
    let d : i + suc n ≡ i + 1 + n = omega arith in
    rw (e, d) (see_from-add f n m (i + 1) (see (f i) s))

abbrev pub Distinct : (ℕ → ℕ) → ℕ → Type 0
Distinct f n = (k l : ℕ) → k < n → l < n → f k ≡ f l → k ≡ l

module _ (f : ℕ → ℕ) (n : ℕ) where
  -- What the bitmap says after the first `i` values.
  record HasSeen (i : ℕ) (s : Seen) : Type 0 where
    size : length s.bitmap ≡ n
    sound : (x : ℕ) → get_or s.bitmap x false ≡ true → (k : ℕ) × (k < i) × (f k ≡ x)
    complete : (k : ℕ) → k < i → get_or s.bitmap (f k) false ≡ true
    good : s.consistent ≡ true → Distinct f i × (count_seen s.bitmap ≡ i)
    bad : s.consistent ≡ false → (k : ℕ) × (l : ℕ) × (k < l) × (l < i) × (f k ≡ f l)

  clash :
      (i k : ℕ) (s : Seen) → HasSeen i s → k < i → get_or s.bitmap (f i) false ≡ false → f k ≢ f i
  clash i k s h lt new e =
      let seen = h.complete k lt in let same = ap (λ x. get_or s.bitmap x false) e in cc

  see_again :
      (i : ℕ) (s : Seen)
      → HasSeen i s
      → get_or s.bitmap (f i) false ≡ true
      → HasSeen (suc i) (see (f i) s)
  see_again i s h seen = rw seen (record {
    size = h.size;
    sound = λ x e. let (k, lt, at) = h.sound x e in (k, omega arith, at);
    complete =
        λ k lt. elim (ℕ_discrete k i) [ yes e ↦ rw e seen | no ne ↦ h.complete k (omega arith) ];
    good = λ e. cc;
    bad = λ e. let (k, lt, at) = h.sound (f i) seen in (k, i, lt, omega arith, at);
  })

  see_new :
      (i : ℕ) (s : Seen)
      → HasSeen i s
      → f i < n
      → get_or s.bitmap (f i) false ≡ false
      → HasSeen (suc i) (see (f i) s)
  see_new i s h lt new = rw new (record {
    size = length-set s.bitmap (f i) true ∙ h.size;
    sound = λ x e. elim (ℕ_discrete (f i) x) [
      | yes at ↦ (i, omega arith, at)
      | no ne ↦
          let (k, k_lt, at) = h.sound x (sym (get_or-set_ne s.bitmap (f i) x true false ne) ∙ e) in
          (k, omega arith, at)
    ];
    complete = λ k k_lt. elim (ℕ_discrete (f i) (f k)) [
      | yes e ↦ rw⁻¹ e (get_or-set_self s.bitmap (f i) true false inside)
      | no ne ↦ get_or-set_ne s.bitmap (f i) (f k) true false ne ∙ h.complete k (earlier k k_lt ne)
    ];
    good = λ e. (
      λ k l k_lt l_lt same. apart k l k_lt l_lt same (h.good e).0,
      count_seen-set s.bitmap (f i) inside new ∙ ap suc (h.good e).1,
    );
    bad = λ e. let (k, l, kl, l_lt, at) = h.bad e in (k, l, kl, omega arith, at);
  })
    where
      inside : f i < length s.bitmap
      inside = omega (arith, h.size)

      earlier : (k : ℕ) → k < suc i → f i ≢ f k → k < i
      earlier k k_lt ne = elim (ℕ_discrete i k) [
        | yes e ↦ absurd (ne (ap f e))
        | no d ↦ omega arith
      ]

      apart : (k l : ℕ) → k < suc i → l < suc i → f k ≡ f l → Distinct f i → k ≡ l
      apart k l k_lt l_lt same dist = elim (ℕ_discrete k i) [
        | yes ki ↦ elim (ℕ_discrete l i) [
          | yes li ↦ ki ∙ sym li
          | no nl ↦ absurd (clash i l s h (omega arith) new (sym same ∙ ap f ki))
        ]
        | no nk ↦ elim (ℕ_discrete l i) [
          | yes li ↦ absurd (clash i k s h (omega arith) new (same ∙ ap f li))
          | no nl ↦ dist k l (omega arith) (omega arith) same
        ]
      ]

  seen_step : (i : ℕ) (s : Seen) → HasSeen i s → f i < n → HasSeen (suc i) (see (f i) s)
  seen_step i s h lt = elim (Bool-cases (get_or s.bitmap (f i) false)) [
    | inl seen ↦ see_again i s h seen
    | inr new ↦ see_new i s h lt new
  ]

  see_from-HasSeen :
      (left i : ℕ) (s : Seen)
      → ((k : ℕ) → k < i + left → f k < n)
      → HasSeen i s
      → HasSeen (i + left) (see_from f left i s)
  unfolding see_from
  see_from-HasSeen zero i s inside h = let e : i + 0 ≡ i = omega arith in rw e h
  see_from-HasSeen (suc left) i s inside h =
      let e : i + suc left ≡ i + 1 + left = omega arith in
      let next : i + 1 ≡ suc i = omega arith in
      rw e (
        see_from-HasSeen left (i + 1) (see (f i) s) (λ k lt. inside k (omega arith))
          (rw next (seen_step i s h (inside i (omega arith)))))

  full_by :
      (m : ℕ) (s : Seen)
      → HasSeen m s
      → ((s.consistent && all_seen s.bitmap) ≡ true) ↔ (Distinct f m × (m ≡ n))
  full_by m s h = (
    λ e.
        let (c, all) = both s.consistent (all_seen s.bitmap) e in
        ((h.good c).0, sym (h.good c).1 ∙ (all_seen-count s.bitmap).0 all ∙ h.size),
    λ (dist, e). elim (Bool-cases s.consistent) [
      | inl c ↦ rw (c, (all_seen-count s.bitmap).1 ((h.good c).1 ∙ e ∙ sym h.size)) refl
      | inr c ↦
          let (k, l, kl, lm, same) = h.bad c in
          absurd (omega (arith, dist k l (omega arith) lm same))
    ],
  )
    where
      both : (x y : Bool) → (x && y) ≡ true → (x ≡ true) × (y ≡ true)
      both x y e = ground arith

  fresh : HasSeen 0 (record { bitmap = replicate n false; consistent = true })
  fresh = record {
    size = length-replicate n false;
    sound = λ x e. let z = get_or-replicate n x in cc;
    complete = λ k lt. absurd (omega arith);
    good = λ e. (λ k l k_lt l_lt same. absurd (omega arith), count_seen-replicate n);
    bad = λ e. cc;
  }

  -- A fresh bitmap marked with the first `m` values is consistent and full exactly if the values
  -- differ from one another and are as many as the bits.
  pub full_iff :
      (m : ℕ)
      → ((k : ℕ) → k < m → f k < n)
      → let s = see_from f m 0 (record { bitmap = replicate n false; consistent = true }) in
        ((s.consistent && all_seen s.bitmap) ≡ true) ↔ (Distinct f m × (m ≡ n))
  full_iff m inside =
      let e : 0 + m ≡ m = omega arith in
      full_by m (see_from f m 0 (record { bitmap = replicate n false; consistent = true })) (
        rw e at (
          see_from-HasSeen m 0 (record { bitmap = replicate n false; consistent = true })
            (λ k lt. inside k (omega arith)) fresh))
