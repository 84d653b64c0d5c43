-- ===== src/Base/Words64.antt =====
-- 64-bit words in memory, and ranges of memory put together.
use nvml.Base.Lists.{length, length-append, get_or-append_left, get_or-append_right}
use nvml.Base.Memory.{
  Mem, load, store, get32-lt, get64, le64, Apart, get32-store, get32-store-Apart,
}
use Prim.Native.Nat.{ℕ, zero, suc, ◌+◌, ◌-◌, ◌^◌, ◌<◌}
use mathlib.Core.Path.{◌≡◌, refl, ap}
use mathlib.Core.List.{List, [], ◌∷◌, ◌++◌}
use native.Mathlib.Omega.{arith}

pub get64-lt : (m : Mem) (off : ℕ) → get64 m off < 2 ^ 64
get64-lt m off = omega (arith, get32-lt m off, get32-lt m (off + 4))

pub get64-store-le64 : (m : Mem) (off v : ℕ) → v < 2 ^ 64 → get64 (store m off (le64 v)) off ≡ v
get64-store-le64 m off v h = omega (
  arith,
  get32-store m off (le64 v) 0 off (omega arith) (omega arith),
  get32-store m off (le64 v) 4 (off + 4) (omega arith) (omega arith),
)

pub get64-store-Apart :
    (m : Mem) (off : ℕ) (bs : List ℕ) (o : ℕ)
    → Apart off (length bs) o 8
    → get64 (store m off bs) o ≡ get64 m o
get64-store-Apart m off bs o h = omega (
  arith,
  get32-store-Apart m off bs o (omega arith),
  get32-store-Apart m off bs (o + 4) (omega arith),
)

-- A range is its two parts.
pub load-add :
    (m : Mem) (off n k t o : ℕ)
    → t ≡ n + k
    → o ≡ off + n
    → load m off t ≡ load m off n ++ load m o k
unfolding load
load-add m off zero k t o e p =
    let whole : t ≡ k = omega arith in let start : o ≡ off = omega arith in rw (whole, start) refl
load-add m off (suc n) k zero o e p = absurd (omega arith)
load-add m off (suc n) k (suc t) o e p =
    ap (λ bs. m off ∷ bs) (load-add m (off + 1) n k t o (omega arith) (omega arith))

store-next_at :
    (m : Mem) (off : ℕ) (bs cs : List ℕ) (a : ℕ)
    → store (store m off bs) (off + length bs) cs a ≡ store m off (bs ++ cs) a
unfolding store
store-next_at m off bs cs a = ground (
  arith,
  length-append bs cs,
  get_or-append_left bs cs (a - off) 0,
  get_or-append_right bs cs (a - off) (a - (off + length bs)) 0,
)

-- Two stores next to one another are one.
pub store-store_next :
    (m : Mem) (off : ℕ) (bs cs : List ℕ)
    → store (store m off bs) (off + length bs) cs ≡ store m off (bs ++ cs)
store-store_next m off bs cs = λ i a. store-next_at m off bs cs a i

store_nil_at : (m : Mem) (off a : ℕ) → store m off [] a ≡ m a
unfolding store
store_nil_at m off a = ground arith

pub store-nil : (m : Mem) (off : ℕ) → store m off [] ≡ m
store-nil m off = λ i a. store_nil_at m off a i
