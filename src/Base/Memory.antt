-- ===== src/Base/Memory.antt =====
-- Byte-addressed memory, and the little-endian words that the on-media formats store in it
-- (the conversions htole32, le32toh and their kin, and memcpy).
use Prim.Native.Nat.{ℕ, zero, suc, ◌+◌, ◌-◌, ◌*◌, ◌/◌, ◌%◌, ◌^◌, ◌≤◌, ◌<◌}
use mathlib.Core.Path.{◌≡◌, refl, ap, ap₂, ◌∙◌}
use mathlib.Core.Logic.{◌⊎◌}
use mathlib.Core.Bool.{◌&&◌}
use mathlib.Core.List.{List, [], ◌∷◌, ◌++◌}
use native.Mathlib.Omega.{arith}
use nvml.Base.Tests.{ltb, leb, if◌then◌else◌}
use nvml.Base.Lists.{length, get_or}

abbrev pub Mem : Type 0
Mem = ℕ → ℕ

-- memcpy out of memory
unfoldable pub load : Mem → ℕ → ℕ → List ℕ
load m off zero = []
load m off (suc n) = m off ∷ load m (off + 1) n

-- memcpy into memory
unfoldable pub store : Mem → ℕ → List ℕ → Mem
store m off bs a = if leb off a && ltb a (off + length bs) then get_or bs (a - off) 0 else m a

-- The bytes of a 32-bit word, lowest first.
abbrev pub le32 : ℕ → List ℕ
le32 v = (v % 256) ∷ (v / 256 % 256) ∷ (v / 65536 % 256) ∷ (v / 16777216 % 256) ∷ []

-- The bytes of a 64-bit word, lowest first.
abbrev pub le64 : ℕ → List ℕ
le64 v = le32 v ++ le32 (v / 2 ^ 32)

abbrev pub word_of : ℕ → ℕ → ℕ → ℕ → ℕ
word_of a b c d = a % 256 + b % 256 * 256 + c % 256 * 65536 + d % 256 * 16777216

-- The 32-bit word at index `i` of some bytes.
abbrev pub word : List ℕ → ℕ → ℕ
word bs i =
    word_of (get_or bs i 0) (get_or bs (i + 1) 0) (get_or bs (i + 2) 0) (get_or bs (i + 3) 0)

-- The 32-bit word at an offset of the memory.
unfoldable pub get32 : Mem → ℕ → ℕ
get32 m off = word_of (m off) (m (off + 1)) (m (off + 2)) (m (off + 3))

-- The 64-bit word at an offset of the memory.
abbrev pub get64 : Mem → ℕ → ℕ
get64 m off = get32 m off + get32 m (off + 4) * 2 ^ 32

-- The memories hold the same `n` bytes at `off`.
abbrev pub Agree : ℕ → ℕ → Mem → Mem → Type 0
Agree off n m m' = (a : ℕ) → off ≤ a → a < off + n → m a ≡ m' a

-- An address outside the stored range.
abbrev pub Outside : ℕ → ℕ → ℕ → Type 0
Outside off n a = (a < off) ⊎ (off + n ≤ a)

-- Two ranges that have no address in common.
abbrev pub Apart : ℕ → ℕ → ℕ → ℕ → Type 0
Apart off n off' n' = (off + n ≤ off') ⊎ (off' + n' ≤ off)

pub store-Outside :
    (m : Mem) (off : ℕ) (bs : List ℕ) (a : ℕ) → Outside off (length bs) a → store m off bs a ≡ m a
unfolding store
store-Outside m off bs a h = ground arith

pub store_inside :
    (m : Mem) (off : ℕ) (bs : List ℕ) (a i : ℕ)
    → a ≡ off + i
    → i < length bs
    → store m off bs a ≡ get_or bs i 0
unfolding store
store_inside m off bs a i e h = ground (arith, ap (λ t. get_or bs t 0) same)
  where
    same : a - off ≡ i
    same = omega arith

pub store-Apart :
    (m : Mem) (off : ℕ) (bs : List ℕ) (off' n : ℕ)
    → Apart off (length bs) off' n
    → Agree off' n (store m off bs) m
store-Apart m off bs off' n h a lo hi = store-Outside m off bs a (omega arith)

pub length-load : (m : Mem) (off n : ℕ) → length (load m off n) ≡ n
unfolding load
length-load m off zero = refl
length-load m off (suc n) = ap suc (length-load m (off + 1) n)

pub load-Agree : (m m' : Mem) (off n : ℕ) → Agree off n m m' → load m off n ≡ load m' off n
unfolding load
load-Agree m m' off zero h = refl
load-Agree m m' off (suc n) h =
    ap₂ ◌∷◌ (h off (omega arith) (omega arith))
      (load-Agree m m' (off + 1) n (λ a lo hi. h a (omega arith) (omega arith)))

pub get32-Agree : (m m' : Mem) (off : ℕ) → Agree off 4 m m' → get32 m off ≡ get32 m' off
unfolding get32
get32-Agree m m' off h = omega (
  arith,
  h off (omega arith) (omega arith),
  h (off + 1) (omega arith) (omega arith),
  h (off + 2) (omega arith) (omega arith),
  h (off + 3) (omega arith) (omega arith),
)

get_or-load : (m : Mem) (off n i a : ℕ) → i < n → a ≡ off + i → get_or (load m off n) i 0 ≡ m a
unfolding load
get_or-load m off zero i a h e = absurd (omega arith)
get_or-load m off (suc n) zero a h e = ap m (omega arith)
get_or-load m off (suc n) (suc i) a h e = get_or-load m (off + 1) n i a (omega arith) (omega arith)

-- A word of a block that was read is the word in memory.
pub word-load : (m : Mem) (off n i : ℕ) → i + 4 ≤ n → word (load m off n) i ≡ get32 m (off + i)
unfolding get32
word-load m off n i h = omega (
  arith,
  get_or-load m off n i (off + i) (omega arith) (omega arith),
  get_or-load m off n (i + 1) (off + i + 1) (omega arith) (omega arith),
  get_or-load m off n (i + 2) (off + i + 2) (omega arith) (omega arith),
  get_or-load m off n (i + 3) (off + i + 3) (omega arith) (omega arith),
)

-- A word of a block that was written is the word in memory.
pub get32-store :
    (m : Mem) (off : ℕ) (bs : List ℕ) (i a : ℕ)
    → a ≡ off + i
    → i + 4 ≤ length bs
    → get32 (store m off bs) a ≡ word bs i
unfolding get32
get32-store m off bs i a e h = omega (
  arith,
  store_inside m off bs a i e (omega arith),
  store_inside m off bs (a + 1) (i + 1) (omega arith) (omega arith),
  store_inside m off bs (a + 2) (i + 2) (omega arith) (omega arith),
  store_inside m off bs (a + 3) (i + 3) (omega arith) (omega arith),
)

pub get32-store-le32 : (m : Mem) (off v : ℕ) → v < 2 ^ 32 → get32 (store m off (le32 v)) off ≡ v
get32-store-le32 m off v h =
    omega (arith, get32-store m off (le32 v) 0 off (omega arith) (omega arith))

pub get32-lt : (m : Mem) (off : ℕ) → get32 m off < 2 ^ 32
unfolding get32
get32-lt m off = omega arith

-- A store elsewhere leaves a word as it was.
pub get32-store-Apart :
    (m : Mem) (off : ℕ) (bs : List ℕ) (o : ℕ)
    → Apart off (length bs) o 4
    → get32 (store m off bs) o ≡ get32 m o
get32-store-Apart m off bs o h = get32-Agree (store m off bs) m o (store-Apart m off bs o 4 h)

-- What was stored is loaded again.
load-store_from :
    (m : Mem) (off : ℕ) (bs : List ℕ) (i : ℕ) (cs : List ℕ)
    → ((j : ℕ) → j < length cs → get_or bs (i + j) 0 ≡ get_or cs j 0)
    → i + length cs ≤ length bs
    → load (store m off bs) (off + i) (length cs) ≡ cs
unfolding load
load-store_from m off bs i [] h le = refl
load-store_from m off bs i (c ∷ cs) h le = ap₂ ◌∷◌ first (
    ap (λ t. load (store m off bs) t (length cs)) shift
    ∙ load-store_from m off bs (i + 1) cs rest (omega arith))
  where
    first : store m off bs (off + i) ≡ c
    first =
        store_inside m off bs (off + i) i refl (omega arith)
        ∙ ap (λ t. get_or bs t 0) (omega arith)
        ∙ h 0 (omega arith)

    shift : off + i + 1 ≡ off + (i + 1)
    shift = omega arith

    rest : (j : ℕ) → j < length cs → get_or bs (i + 1 + j) 0 ≡ get_or cs j 0
    rest j lt = ap (λ t. get_or bs t 0) (omega arith) ∙ h (suc j) (omega arith)

pub load-store : (m : Mem) (off : ℕ) (bs : List ℕ) → load (store m off bs) off (length bs) ≡ bs
load-store m off bs =
    ap (λ t. load (store m off bs) t (length bs)) (omega arith)
    ∙ load-store_from m off bs 0 bs (λ j lt. ap (λ t. get_or bs t 0) (omega arith)) (omega arith)
