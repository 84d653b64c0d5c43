-- ===== src/Base/Bits.antt =====
-- Masks and disjoint unions of bits, as remainders and sums: what `&` and `|` with a constant of
-- the source come to at a variable.
use Prim.Native.Nat.{
  ℕ, zero, suc, ◌+◌, ◌-◌, ◌*◌, ◌/◌, ◌%◌, ◌^◌, ◌≤◌, ◌<◌, min, max, bit_and, bit_or,
}
use Prim.Native.Nat.{digits, bit_and-bitwise, bit_or-bitwise}
use mathlib.Core.Path.{◌≡◌, refl, sym, ap, ◌∙◌}
use native.Mathlib.Nat.{
  pow-suc, pow-succ', div-div-eq-div-mul, one-le-pow, mod-lt, mod-add-div', mod-eq_of_lt,
  add-mul-mod_self_right,
}
use native.Mathlib.Decide.{ℕ_discrete}
use native.Mathlib.Omega.{arith}

module _ (rest : ℕ → ℕ) (join : ℕ → ℕ → ℕ) where
  -- One more unit of fuel than the first argument needs does not matter, and so no more does.
  digits_one_more : (n a b : ℕ) → a ≤ n → digits rest join (suc n) a b ≡ digits rest join n a b
  digits_one_more zero zero b le = refl
  digits_one_more zero (suc a) b le = absurd (omega arith)
  digits_one_more (suc n) zero b le = refl
  digits_one_more (suc n) (suc a) b le =
      omega (arith, digits_one_more n (suc a / 2) (b / 2) (omega arith))

  digits_enough : (n a b : ℕ) → a ≤ n → digits rest join n a b ≡ digits rest join a a b
  digits_enough zero a b le = let e : a ≡ 0 = omega arith in rw e refl
  digits_enough (suc n) a b le = elim (ℕ_discrete a (suc n)) [
    | yes e ↦ rw e refl
    | no ne ↦ digits_one_more n a b (omega arith) ∙ digits_enough n a b (omega arith)
  ]

bit_and-by_digits : (a b : ℕ) → bit_and a b ≡ bit_and (a / 2) (b / 2) * 2 + min (a % 2) (b % 2)
bit_and-by_digits zero b = omega (arith, bit_and-bitwise 0 b, bit_and-bitwise 0 (b / 2))
bit_and-by_digits (suc a) b =
    let half = digits_enough (λ z. zero) min a (suc a / 2) (b / 2) (omega arith) in
    omega (arith, half, bit_and-bitwise (suc a) b, bit_and-bitwise (suc a / 2) (b / 2))

pub bit_and-zero : (b : ℕ) → bit_and 0 b ≡ 0
bit_and-zero b = bit_and-bitwise 0 b

bit_or-by_digits : (a b : ℕ) → bit_or a b ≡ bit_or (a / 2) (b / 2) * 2 + max (a % 2) (b % 2)
bit_or-by_digits zero b = omega (arith, bit_or-bitwise 0 b, bit_or-bitwise 0 (b / 2))
bit_or-by_digits (suc a) b =
    let half = digits_enough (λ z. z) max a (suc a / 2) (b / 2) (omega arith) in
    omega (arith, half, bit_or-bitwise (suc a) b, bit_or-bitwise (suc a / 2) (b / 2))

-- The last digit of either argument is 0, or of the second is 1.
bit_and-double : (a b : ℕ) → bit_and a (b * 2) ≡ bit_and (a / 2) b * 2
bit_and-double a b =
    let e : b * 2 / 2 ≡ b = omega arith in
    omega (arith, bit_and-by_digits a (b * 2), ap (bit_and (a / 2)) e)

bit_and-double_suc : (a b : ℕ) → bit_and a (suc (b * 2)) ≡ bit_and (a / 2) b * 2 + a % 2
bit_and-double_suc a b =
    let e : suc (b * 2) / 2 ≡ b = omega arith in
    omega (arith, bit_and-by_digits a (suc (b * 2)), ap (bit_and (a / 2)) e)

bit_or-double : (a b : ℕ) → bit_or a (b * 2) ≡ bit_or (a / 2) b * 2 + a % 2
bit_or-double a b =
    let e : b * 2 / 2 ≡ b = omega arith in
    omega (arith, bit_or-by_digits a (b * 2), ap (bit_or (a / 2)) e)

-- `a & 0` and `a | 0`, for every argument below a bound.
with_zero_below : (bound a : ℕ) → a < bound → (bit_and a 0 ≡ 0) × (bit_or a 0 ≡ a)
with_zero_below zero a lt = absurd (omega arith)
with_zero_below (suc bound) zero lt = (bit_and-bitwise 0 0, bit_or-bitwise 0 0)
with_zero_below (suc bound) (suc a) lt =
    let (masked, joined) = with_zero_below bound (suc a / 2) (omega arith) in
    (
      omega (arith, masked, bit_and-by_digits (suc a) 0),
      omega (arith, joined, bit_or-by_digits (suc a) 0),
    )

pow_split : (k m : ℕ) → m * 2 ^ suc k ≡ m * 2 ^ k * 2
pow_split k m = omega (arith, pow-suc 2 k, ap (λ t. m * t) (pow-suc 2 k))

-- A mask above `k` bits reads the part above them.
pub bit_and_high : (k a m : ℕ) → bit_and a (m * 2 ^ k) ≡ bit_and (a / 2 ^ k) m * 2 ^ k
bit_and_high zero a m =
    let e : m * 1 ≡ m = omega arith in
    let d : a / 1 ≡ a = omega arith in ap (bit_and a) e ∙ omega (arith, ap (λ t. bit_and t m) d)
bit_and_high (suc k) a m =
    let d : a / 2 / 2 ^ k ≡ a / 2 ^ suc k =
      div-div-eq-div-mul a 2 (2 ^ k) ∙ ap (λ t. a / t) (sym (pow-succ' 2 k)) in
    rw (pow_split k m, bit_and-double, bit_and_high k (a / 2) m, d, pow_split k)

mod-double : (a p : ℕ) → 1 ≤ p → a / 2 % p * 2 + a % 2 ≡ a % (p * 2)
mod-double a p h =
    let x : ℕ = a / 2 % p * 2 + a % 2 in
    let below : x < p * 2 = omega (arith, mod-lt (a / 2) h) in
    let split : a ≡ x + a / 2 / p * (p * 2) =
      omega (arith, mod-add-div' (a / 2) p, ap (λ t. t * 2) (mod-add-div' (a / 2) p)) in
    sym (mod-eq_of_lt below)
    ∙ sym (add-mul-mod_self_right x (a / 2 / p) (p * 2))
    ∙ ap (λ t. t % (p * 2)) (sym split)

-- A mask of the `k` low bits is a remainder.
pub bit_and_low : (k a : ℕ) → bit_and a (2 ^ k - 1) ≡ a % 2 ^ k
bit_and_low zero a = omega (arith, with_zero_below (suc a) a (omega arith))
bit_and_low (suc k) a =
    let one_le = one-le-pow k 2 (omega arith) in
    let e : 2 ^ suc k - 1 ≡ suc ((2 ^ k - 1) * 2) = omega (arith, pow-suc 2 k, one_le) in
    rw (e, bit_and-double_suc, bit_and_low k (a / 2))
      (mod-double a (2 ^ k) one_le ∙ ap (λ t. a % t) (sym (pow-suc 2 k)))

-- Bits above `k` and a number below `2 ^ k` add up.
pub bit_or_disjoint : (k a m : ℕ) → a < 2 ^ k → bit_or a (m * 2 ^ k) ≡ a + m * 2 ^ k
bit_or_disjoint zero a m h =
    let e : a ≡ 0 = omega arith in rw e (bit_or-bitwise 0 (m * 1) ∙ omega arith)
bit_or_disjoint (suc k) a m h =
    let lower : a / 2 < 2 ^ k = omega (arith, pow-suc 2 k) in
    rw (pow_split k m, bit_or-double, bit_or_disjoint k (a / 2) m lower) (omega arith)

-- The lowest bit, set and cleared in 16 bits.
pub bit_and-one : (a : ℕ) → bit_and a 1 ≡ a % 2
bit_and-one a = bit_and_low 1 a

pub bit_or-one : (a : ℕ) → bit_or a 1 % 2 ≡ 1
bit_or-one a = omega (arith, bit_or-by_digits a 1)

pub bit_and-but_one : (a : ℕ) → bit_and a 65534 % 2 ≡ 0
bit_and-but_one a = omega (arith, bit_and_high 1 a 32767)
