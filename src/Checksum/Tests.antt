-- ===== src/Checksum/Tests.antt =====
-- A structure of six words whose third and fourth hold the checksum.
use nvml.Base.{
  ℕ, ◌+◌, ◌*◌, ◌≡◌, ◌≢◌, refl, inr, ◌≤◌, List, [], ◌∷◌, ◌++◌, true, false, arith, replicate, length,
  take, drop,
}
use nvml.Base.Memory.{word, le32, le64}
use nvml.Checksum.{words, fletcher, checksum, put, insert_checksum, verify_checksum}
use nvml.Checksum.Laws.{verify-insert, verify-put-word}

abbrev header : List ℕ
header =
    1 ∷ 2 ∷ 3 ∷ 4 ∷ 255 ∷ 255 ∷ 255 ∷ 255 ∷ 9 ∷ 9 ∷ 9 ∷ 9 ∷ 9 ∷ 9 ∷ 9 ∷ 9 ∷ 7 ∷ 0 ∷ 0 ∷ 0 ∷ 0 ∷ 0
    ∷ 0 ∷ 128 ∷ []

-- A run on two words: the sums are of 5 and 6, and the field counts as zeros.
checksum_runs :
    checksum (5 ∷ 0 ∷ 0 ∷ 0 ∷ 6 ∷ 0 ∷ 0 ∷ 0 ∷ replicate 8 1) 8
    ≡ 16 * 0x100000000 + 11 + 22 * 0x100000000
unfolding checksum words fletcher
checksum_runs = refl

verify-insert_example : verify_checksum (insert_checksum header 8) 8 ≡ true
verify-insert_example = verify-insert header 8 refl (omega arith)

filled : insert_checksum header 8 ≡ take 8 header ++ (le64 (checksum header 8) ++ drop 16 header)
unfolding insert_checksum put
filled = refl

room : 24 ≤ length (insert_checksum header 8)
room = rw filled (omega arith)

fresh : 77 ≢ word (insert_checksum header 8) (4 * 5)
fresh = rw filled (omega arith)

verify-put-word_example :
    verify_checksum (put (insert_checksum header 8) (4 * 5) (le32 77)) 8 ≡ false
verify-put-word_example =
    verify-put-word (insert_checksum header 8) 8 5 77 refl (omega (arith, room))
      (omega (arith, room)) (inr (omega arith)) (omega arith) fresh verify-insert_example
