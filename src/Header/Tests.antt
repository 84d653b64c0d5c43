-- ===== src/Header/Tests.antt =====
-- The header of a new pool, checked.
use nvml.Base.{ℕ, zero, suc, ap, ◌∙◌, ◌+◌, ◌≡◌, refl, List, [], ◌∷◌, true, replicate, arith}
use nvml.Base.Memory.{Mem, load}
use nvml.Header.{is_zeroed, hdr_size}

abbrev test_signature : List ℕ
test_signature = 80 ∷ 77 ∷ 69 ∷ 77 ∷ 76 ∷ 79 ∷ 71 ∷ 0 ∷ []

-- A file of zeros.
abbrev pub blank_file : Mem
blank_file a = 0

zeros_loaded : (off n : ℕ) → load blank_file off n ≡ replicate n 0
unfolding load
zeros_loaded off zero = refl
zeros_loaded off (suc n) = ap (λ t. 0 ∷ t) (zeros_loaded (off + 1) n)

zeros-zeroed : (n : ℕ) → is_zeroed (replicate n 0) ≡ true
unfolding is_zeroed
zeros-zeroed zero = refl
zeros-zeroed (suc n) = ground (arith, zeros-zeroed n)

pub blank-zeroed : is_zeroed (load blank_file 0 hdr_size) ≡ true
blank-zeroed = ap is_zeroed (zeros_loaded 0 hdr_size) ∙ zeros-zeroed hdr_size
