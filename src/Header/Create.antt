-- ===== src/Header/Create.antt =====
-- The header of a new pool passes the checks of util_convert_hdr and util_feature_check.
use nvml.Base.{
  ℕ, suc, ◌+◌, ◌-◌, ◌^◌, ◌<◌, ◌≤◌, ◌≡◌, refl, ap, ◌∙◌, List, [], ◌∷◌, ◌++◌, length, get_or, true,
  replicate, length-append, length-replicate, get_or-append_left, get_or-append_right, arith,
}
use nvml.Base.Bits.{bit_and-zero}
use nvml.Base.Memory.{word, le32, le64}
use nvml.Checksum.{insert_checksum, verify_checksum, checksum}
use nvml.Checksum.Laws.{verify-insert}
use nvml.Checksum.Fields.{word-put_outside, get_or-put-Outside, length-put}
use nvml.Btt.InfoBlock.{same_at}
use nvml.Header.{new_hdr, convert_hdr, feature_check, supported, hdr_major_off, hdr_checksum_off}

pub word-append_right :
    (xs ys : List ℕ) (k i : ℕ) → k ≡ length xs + i → word (xs ++ ys) k ≡ word ys i
word-append_right xs ys k i e = omega (
  arith,
  get_or-append_right xs ys k i 0 e,
  get_or-append_right xs ys (k + 1) (i + 1) 0 (omega arith),
  get_or-append_right xs ys (k + 2) (i + 2) 0 (omega arith),
  get_or-append_right xs ys (k + 3) (i + 3) 0 (omega arith),
)

-- memcmp finds bytes equal that are.
pub same_at_lem :
    (xs : List ℕ) (off : ℕ) (bs : List ℕ)
    → ((i : ℕ) → i < length bs → get_or xs (off + i) 0 ≡ get_or bs i 0)
    → same_at xs off bs ≡ true
same_at_lem xs off [] h = refl
same_at_lem xs off (b ∷ bs) h = ground (arith, first, same_at_lem xs (off + 1) bs next)
  where
    first : get_or xs off 0 ≡ b
    first = ap (λ k. get_or xs k 0) (omega arith) ∙ h 0 (omega arith)

    next : (i : ℕ) → i < length bs → get_or xs (off + 1 + i) 0 ≡ get_or bs i 0
    next i lt = ap (λ k. get_or xs k 0) (omega arith) ∙ h (suc i) (omega arith)

module _ (signature : List ℕ) (major : ℕ) (uuid : List ℕ) (crtime : ℕ)
    (sig_length : length signature ≡ 8) (uuid_length : length uuid ≡ 16) (major_pos : 0 < major)
    (major_small : major < 2 ^ 32) where
  abbrev rest : List ℕ
  rest =
      le32 major ++ (le32 0 ++ (le32 0 ++ (le32 0 ++ (uuid ++ (le64 crtime ++ replicate 4048 0)))))

  abbrev plain : List ℕ
  plain = signature ++ rest

  length-plain : length plain ≡ 4096
  length-plain = omega (
    arith,
    sig_length,
    uuid_length,
    length-append signature rest,
    length-append uuid (le64 crtime ++ replicate 4048 0),
    length-replicate {A = ℕ} 4048 0,
  )

  abbrev hdr : List ℕ
  hdr = new_hdr signature major uuid crtime

  -- Only the checksum field is written over.
  hdr-word : (k : ℕ) → k + 4 ≤ 4088 → word hdr k ≡ word plain k
  unfolding new_hdr insert_checksum
  hdr-word k h =
      word-put_outside plain hdr_checksum_off (le64 (checksum plain hdr_checksum_off)) k
        (omega arith) (omega (arith, length-plain))

  rest-word : (k i : ℕ) → k ≡ 8 + i → k + 4 ≤ 4088 → word hdr k ≡ word rest i
  rest-word k i e h =
      hdr-word k h ∙ word-append_right signature rest k i (omega (arith, sig_length))

  pub length-new_hdr : length hdr ≡ 4096
  unfolding new_hdr insert_checksum
  length-new_hdr =
      length-put plain hdr_checksum_off (le64 (checksum plain hdr_checksum_off))
        (omega (arith, length-plain))
      ∙ length-plain

  pub new_hdr_major : word hdr hdr_major_off ≡ major
  new_hdr_major = rest-word 8 0 refl (omega arith) ∙ omega arith

  pub new_hdr-signature : same_at hdr 0 signature ≡ true
  unfolding new_hdr insert_checksum
  new_hdr-signature = same_at_lem hdr 0 signature (λ i lt.
      ap (λ k. get_or hdr k 0) (omega arith)
      ∙ get_or-put-Outside plain hdr_checksum_off (le64 (checksum plain hdr_checksum_off)) i
          (omega arith) (omega (arith, length-plain))
      ∙ get_or-append_left signature rest i 0 lt)

  -- A header of a new pool, with a signature of 8 bytes, a UUID of 16 and a major version of 32 bits
  -- that is not 0, is valid to util_convert_hdr and asks for no feature that a reader could lack.
  pub convert-new_hdr :
      (convert_hdr hdr ≡ true)
      × ((incompat ro_compat : ℕ) → feature_check hdr incompat ro_compat ≡ supported)
  unfolding convert_hdr feature_check
  convert-new_hdr = (
    ground (arith, new_hdr_major, verified),
    λ incompat ro_compat. ground (
      arith,
      rest-word 16 8 refl (omega arith),
      rest-word 20 12 refl (omega arith),
      bit_and-zero (2 ^ 32 - 1 - incompat),
      bit_and-zero (2 ^ 32 - 1 - ro_compat),
    ),
  )
    where
      verified : verify_checksum hdr hdr_checksum_off ≡ true
      verified =
          unfold new_hdr in verify-insert plain hdr_checksum_off refl (omega (arith, length-plain))
