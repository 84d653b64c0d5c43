-- ===== src/Checksum/Sums.antt =====
-- What the checksum depends on: every word but the two of its own field.
use nvml.Base.{
  ℕ, zero, suc, ◌+◌, ◌%◌, ◌^◌, ◌<◌, ◌≤◌, ◌≡◌, ◌≢◌, refl, ap, List, [], ◌∷◌, Bool-cases, inl, inr,
  length, get_or, set, ◌==◌, arith, ◌||◌, if◌then◌else◌,
}
use nvml.Checksum.{fletcher}
use nvml.Namespace.{u32}

-- The lists differ at most in the words numbered `csump` and `csump + 1`.
abbrev pub SameBut : ℕ → ℕ → List ℕ → List ℕ → Type 0
SameBut csump p [] [] = Unit
SameBut csump p [] (v ∷ vs) = ⊥
SameBut csump p (w ∷ ws) [] = ⊥
SameBut csump p (w ∷ ws) (v ∷ vs) =
    (p ≢ csump → p ≢ csump + 1 → w ≡ v) × SameBut csump (p + 1) ws vs

pub fletcher_same :
    (csump p : ℕ) (ws vs : List ℕ) (lo hi : ℕ)
    → p ≢ csump + 1
    → csump + 2 ≤ p + length ws
    → SameBut csump p ws vs
    → fletcher csump p ws lo hi ≡ fletcher csump p vs lo hi
unfolding fletcher
fletcher_same csump p [] [] lo hi ne le s = refl
fletcher_same csump p [] (v ∷ vs) lo hi ne le s = absurd s
fletcher_same csump p (w ∷ ws) [] lo hi ne le s = absurd s
fletcher_same csump p (w ∷ []) (v ∷ []) lo hi ne le s =
    ap (λ x. (u32 (lo + x), u32 (hi + u32 (lo + x)))) (s.0 (omega arith) (omega arith))
fletcher_same csump p (w ∷ []) (v ∷ v' ∷ vs) lo hi ne le s = absurd s.1
fletcher_same csump p (w ∷ w' ∷ ws) (v ∷ []) lo hi ne le s = absurd s.1
fletcher_same csump p (w ∷ w' ∷ ws) (v ∷ v' ∷ vs) lo hi ne le s = elim (Bool-cases (p == csump)) [
  | inl e ↦ rw e (
      fletcher_same csump (p + 1 + 1) ws vs lo (u32 (u32 (hi + lo) + lo)) (ground arith)
        (omega arith) s.1.1)
  | inr n ↦
      let same : w ≡ v = s.0 (ground arith) ne in
      rw (n, same)
        (fletcher_same csump (p + 1) (w' ∷ ws) (v' ∷ vs) (u32 (lo + v)) (u32 (hi + u32 (lo + v)))
          (ground arith) (omega arith) s.1)
]

-- The sum of the words that count.
total : ℕ → ℕ → List ℕ → ℕ
total csump p [] = 0
total csump p (w ∷ ws) = (if p == csump || p == csump + 1 then 0 else w) + total csump (p + 1) ws

-- The low half is the sum of the words that count.
fletcher_low :
    (csump p : ℕ) (ws : List ℕ) (lo hi : ℕ)
    → p ≢ csump + 1
    → csump + 2 ≤ p + length ws
    → lo < 2 ^ 32
    → (fletcher csump p ws lo hi).0 ≡ (lo + total csump p ws) % 2 ^ 32
unfolding fletcher total
fletcher_low csump p [] lo hi ne le h = omega arith
fletcher_low csump p (w ∷ []) lo hi ne le h = ground arith
fletcher_low csump p (w ∷ w' ∷ ws) lo hi ne le h = ground (
  arith,
  fletcher_low csump (p + 1 + 1) ws lo (u32 (u32 (hi + lo) + lo)),
  fletcher_low csump (p + 1) (w' ∷ ws) (u32 (lo + w)) (u32 (hi + u32 (lo + w))),
)

total-set :
    (csump p : ℕ) (ws : List ℕ) (j v : ℕ)
    → j < length ws
    → p + j ≢ csump
    → p + j ≢ csump + 1
    → total csump p (set ws j v) + get_or ws j 0 ≡ total csump p ws + v
unfolding total
total-set csump p [] j v h n m = absurd (omega arith)
total-set csump p (w ∷ ws) zero v h n m = ground arith
total-set csump p (w ∷ ws) (suc j) v h n m = ground (arith, total-set csump (p + 1) ws j v)

-- Changing one word that counts changes the low half.
pub fletcher-set :
    (csump : ℕ) (ws : List ℕ) (j v : ℕ)
    → csump + 2 ≤ length ws
    → j < length ws
    → j ≢ csump
    → j ≢ csump + 1
    → v < 2 ^ 32
    → get_or ws j 0 < 2 ^ 32
    → v ≢ get_or ws j 0
    → length (set ws j v) ≡ length ws
    → (fletcher csump 0 (set ws j v) 0 0).0 ≢ (fletcher csump 0 ws 0 0).0
fletcher-set csump ws j v le h n m bv bw ne same e = absurd (
    omega (
      arith,
      fletcher_low csump 0 ws 0 0,
      fletcher_low csump 0 (set ws j v) 0 0,
      total-set csump 0 ws j v h (omega arith) (omega arith),
    ))

-- Both sums are 32-bit words.
pub fletcher_bound :
    (csump p : ℕ) (ws : List ℕ) (lo hi : ℕ)
    → lo < 2 ^ 32
    → hi < 2 ^ 32
    → ((fletcher csump p ws lo hi).0 < 2 ^ 32) × ((fletcher csump p ws lo hi).1 < 2 ^ 32)
unfolding fletcher
fletcher_bound csump p [] lo hi h k = (h, k)
fletcher_bound csump p (w ∷ []) lo hi h k = omega arith
fletcher_bound csump p (w ∷ w' ∷ ws) lo hi h k = elim (Bool-cases (p == csump)) [
  | inl e ↦ rw e (fletcher_bound csump (p + 1 + 1) ws lo (u32 (u32 (hi + lo) + lo)) h (omega arith))
  | inr n ↦ rw n (
      fletcher_bound csump (p + 1) (w' ∷ ws) (u32 (lo + w)) (u32 (hi + u32 (lo + w))) (omega arith)
        (omega arith))
]
