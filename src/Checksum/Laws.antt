-- ===== src/Checksum/Laws.antt =====
-- What util_checksum promises: what it inserted verifies, and one damaged word is noticed.
use nvml.Base.{
  ℕ, ◌+◌, ◌*◌, ◌/◌, ◌%◌, ◌^◌, ◌<◌, ◌≤◌, ◌≡◌, ◌≢◌, refl, sym, ap, ◌∙◌, List, true, false, length,
  length-set, get_or, arith, ==_iff,
}
use nvml.Base.Memory.{Apart, word, le64, le32}
use nvml.Checksum.{words, fletcher, checksum, put, field64, insert_checksum, verify_checksum}
use nvml.Checksum.Sums.{fletcher_same, fletcher-set, fletcher_bound}
use nvml.Checksum.Fields.{
  words-put-SameBut, length-words, words-put, get_or-words, word-put_inside, word-put_outside,
  length-put,
}

-- The sum does not depend on what stands in the checksum field.
checksum-put :
    (bytes : List ℕ) (off v : ℕ)
    → off % 4 ≡ 0
    → off + 8 ≤ length bytes
    → checksum (put bytes off (le64 v)) off ≡ checksum bytes off
unfolding checksum
checksum-put bytes off v m le =
    ap (λ (r : ℕ × ℕ). r.1 * 2 ^ 32 + r.0)
      (fletcher_same (off / 4) 0 (words (put bytes off (le64 v))) (words bytes) 0 0 (omega arith)
        (omega (arith, length-words (put bytes off (le64 v)), length-put bytes off (le64 v)))
        (words-put-SameBut (off / 4) 0 bytes off v m le (omega arith)))

checksum-lt : (bytes : List ℕ) (off : ℕ) → checksum bytes off < 2 ^ 64
unfolding checksum
checksum-lt bytes off =
    omega (arith, fletcher_bound (off / 4) 0 (words bytes) 0 0 (omega arith) (omega arith))

-- A structure into which util_checksum inserted its sum passes util_checksum's test, whatever
-- its bytes were, if the checksum field is word-aligned and lies inside the structure.
pub verify-insert :
    (bytes : List ℕ) (off : ℕ)
    → off % 4 ≡ 0
    → off + 8 ≤ length bytes
    → verify_checksum (insert_checksum bytes off) off ≡ true
unfolding verify_checksum insert_checksum
verify-insert bytes off m le =
    (==_iff _ _).1 (field ∙ sym (checksum-put bytes off (checksum bytes off) m le))
  where
    field : field64 (put bytes off (le64 (checksum bytes off))) off ≡ checksum bytes off
    field = omega (
      arith,
      word-put_inside bytes off (le64 (checksum bytes off)) 0 off (omega arith) (omega arith)
          (omega arith),
      word-put_inside bytes off (le64 (checksum bytes off)) 4 (off + 4) (omega arith) (omega arith)
          (omega arith),
      checksum-lt bytes off,
    )

word-lt : (bytes : List ℕ) (k : ℕ) → word bytes k < 2 ^ 32
word-lt bytes k = omega arith

checksum-put_ne :
    (bytes : List ℕ) (off j v : ℕ)
    → off % 4 ≡ 0
    → off + 8 ≤ length bytes
    → 4 * j + 4 ≤ length bytes
    → Apart (4 * j) 4 off 8
    → v < 2 ^ 32
    → v ≢ word bytes (4 * j)
    → checksum (put bytes (4 * j) (le32 v)) off ≢ checksum bytes off
unfolding checksum
checksum-put_ne bytes off j v m le inside apart bv ne e =
    fletcher-set (off / 4) (words bytes) j v (omega (arith, length-words bytes))
      (omega (arith, length-words bytes)) (omega arith) (omega arith) bv
      (rw old (word-lt bytes (4 * j))) (rw old ne) (length-set (words bytes) j v)
      (ap (λ t. (fletcher (off / 4) 0 t 0 0).0) (sym (words-put bytes (4 * j) j v refl inside bv))
        ∙ low)
  where
    old : get_or (words bytes) j 0 ≡ word bytes (4 * j)
    old = get_or-words bytes j (4 * j) refl inside

    low :
        (fletcher (off / 4) 0 (words (put bytes (4 * j) (le32 v))) 0 0).0
        ≡ (fletcher (off / 4) 0 (words bytes) 0 0).0
    low = omega (
      arith,
      fletcher_bound (off / 4) 0 (words bytes) 0 0 (omega arith) (omega arith),
      fletcher_bound (off / 4) 0 (words (put bytes (4 * j) (le32 v))) 0 0 (omega arith)
          (omega arith),
    )

-- If a structure passes the test, it fails it once any one word outside the checksum field holds
-- another value.
pub verify-put-word :
    (bytes : List ℕ) (off j v : ℕ)
    → off % 4 ≡ 0
    → off + 8 ≤ length bytes
    → 4 * j + 4 ≤ length bytes
    → Apart (4 * j) 4 off 8
    → v < 2 ^ 32
    → v ≢ word bytes (4 * j)
    → verify_checksum bytes off ≡ true
    → verify_checksum (put bytes (4 * j) (le32 v)) off ≡ false
unfolding verify_checksum
verify-put-word bytes off j v m le inside apart bv ne good = ground (
  arith,
  checksum-put_ne bytes off j v m le inside apart bv ne,
  word-put_outside bytes (4 * j) (le32 v) off (omega arith) inside,
  word-put_outside bytes (4 * j) (le32 v) (off + 4) (omega arith) inside,
)
