-- ===== src/Base/Outcome.antt =====
-- What a call of the libraries comes to, and code that updates a state on the way.

-- The values of errno that the modelled code sets itself.
pub data Errno : Type 0 where
  einval eio erofs enospc : Errno

-- `hang`: the call spins for ever unless another thread makes progress.
pub data Result {ℓ} (A : Type ℓ) : Type ℓ where
  ok : A → Result A
  err : Errno → Result A
  hang : Result A

-- A call on a state: an error leaves the changes made so far.
abbrev pub Run {ℓ κ} : Type ℓ → Type κ → Type (ℓ ⊔ κ)
Run S A = S → Result A × S

abbrev pub pure {ℓ κ} : {S : Type ℓ} {A : Type κ} → A → Run S A
pure a s = (ok a, s)

abbrev pub fail {ℓ κ} : {S : Type ℓ} {A : Type κ} → Errno → Run S A
fail e s = (err e, s)

abbrev pub continue {ℓ κ μ} :
    {S : Type ℓ} {A : Type κ} {B : Type μ} → Result A → S → (A → Run S B) → Result B × S
continue (ok a) s f = f a s
continue (err e) s f = (err e, s)
continue hang s f = (hang, s)

infixl 5 ◌>>=◌ ◌>>◌
abbrev pub ◌>>=◌ {ℓ κ μ} :
    {S : Type ℓ} {A : Type κ} {B : Type μ} → Run S A → (A → Run S B) → Run S B
◌>>=◌ m f s = let (r, s') = m s in continue r s' f

abbrev pub ◌>>◌ {ℓ κ} : {S : Type ℓ} {B : Type κ} → Run S (Unit {0}) → Run S B → Run S B
m >> k = m >>= λ _. k
