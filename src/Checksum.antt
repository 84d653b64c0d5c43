-- ===== src/Checksum.antt =====
-- util_checksum of src/common/util.c: the Fletcher64 checksum of the on-media structures.
-- The structure is a list of bytes, and the place of its checksum field an index into it.
pub mod Sums
pub mod Fields
pub mod Laws
mod Tests
use nvml.Base.{
  ℕ, ◌+◌, ◌*◌, ◌/◌, ◌%◌, ◌^◌, List, [], ◌∷◌, ◌++◌, Bool, length, take, drop, ◌==◌, ◌&&◌,
  if◌then◌else◌,
}
use nvml.Base.Memory.{word_of, word, le64}
use nvml.Namespace.{u32}

-- The `uint32_t *` view of the bytes.
unfoldable pub words : List ℕ → List ℕ
words (a ∷ b ∷ c ∷ d ∷ bs) = word_of a b c d ∷ words bs
words _ = []

-- The loop: `csump` and `p` count words, and `hi`, `lo` are `hi32`, `lo32`. The checksum field is
-- two words, which count as zeros.
unfoldable pub fletcher : ℕ → ℕ → List ℕ → ℕ → ℕ → ℕ × ℕ
fletcher csump p [] lo hi = (lo, hi)
fletcher csump p (w ∷ []) lo hi = (u32 (lo + w), u32 (hi + u32 (lo + w)))
fletcher csump p (w ∷ v ∷ ws) lo hi =
    let skipped = fletcher csump (p + 1 + 1) ws lo (u32 (u32 (hi + lo) + lo)) in
    let summed = fletcher csump (p + 1) (v ∷ ws) (u32 (lo + w)) (u32 (hi + u32 (lo + w))) in
    if p == csump then skipped else summed

-- (uint64_t)hi32 << 32 | lo32
unfoldable pub checksum : List ℕ → ℕ → ℕ
unfolding words fletcher
checksum bytes csum_off =
    let (lo, hi) = fletcher (csum_off / 4) 0 (words bytes) 0 0 in hi * 2 ^ 32 + lo

-- The bytes with `new` written over those at `off`.
unfoldable pub put : List ℕ → ℕ → List ℕ → List ℕ
put bytes off new = take off bytes ++ (new ++ drop (off + length new) bytes)

-- A 64-bit field.
abbrev pub field64 : List ℕ → ℕ → ℕ
field64 bytes off = word bytes off + word bytes (off + 4) * 2 ^ 32

-- util_checksum with `insert`: the structure with its checksum field filled in.
unfoldable pub insert_checksum : List ℕ → ℕ → List ℕ
insert_checksum bytes csum_off = put bytes csum_off (le64 (checksum bytes csum_off))

-- util_checksum without `insert`.
unfoldable pub verify_checksum : List ℕ → ℕ → Bool
verify_checksum bytes csum_off = field64 bytes csum_off == checksum bytes csum_off
