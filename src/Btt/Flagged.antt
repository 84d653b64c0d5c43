-- ===== src/Btt/Flagged.antt =====
-- The info block that arena_setf writes is valid again.
use nvml.Base.{
  ℕ, ◌+◌, ◌≤◌, ◌<◌, ◌≡◌, refl, ◌∙◌, inl, inr, List, [], ◌∷◌, length, true, bit_or, get_or, some,
  arith,
}
use nvml.Base.Memory.{word, le32, le64, Outside}
use nvml.Checksum.{put, checksum, insert_checksum, field64, verify_checksum}
use nvml.Checksum.Fields.{length-put, word-put_inside, word-put_outside, get_or-put-Outside}
use nvml.Checksum.Laws.{verify-insert}
use nvml.Namespace.{u32}
use nvml.Btt.{Btt}
use nvml.Btt.Info.{flagged_info}
use nvml.Btt.InfoBlock.{Info, read_info, is_valid_info, info_of, same_at, field16, signature}

module _ (b : Btt) (info : List ℕ) (setf : ℕ) (size : length info ≡ 4096) where
  abbrev set_bytes : List ℕ
  set_bytes = put info 32 (le32 (bit_or (word info 32) setf))

  set_size : length set_bytes ≡ 4096
  set_size = length-put info 32 (le32 (bit_or (word info 32) setf)) (omega (arith, size)) ∙ size

  kept : (k : ℕ) → Outside 32 4 k → k < 4088 → get_or (flagged_info info setf) k 0 ≡ get_or info k 0
  unfolding flagged_info insert_checksum
  kept k out lt =
      get_or-put-Outside set_bytes 4088 (le64 (checksum set_bytes 4088)) k (inl lt)
        (omega (arith, set_size))
      ∙ get_or-put-Outside info 32 (le32 (bit_or (word info 32) setf)) k out (omega (arith, size))

  word_kept : (k : ℕ) → 36 ≤ k → k + 4 ≤ 4088 → word (flagged_info info setf) k ≡ word info k
  word_kept k lo hi = omega (
    arith,
    kept k (inr (omega arith)) (omega arith),
    kept (k + 1) (inr (omega arith)) (omega arith),
    kept (k + 2) (inr (omega arith)) (omega arith),
    kept (k + 3) (inr (omega arith)) (omega arith),
  )

  field16_kept :
      (k : ℕ) → 36 ≤ k → k + 2 ≤ 4088 → field16 (flagged_info info setf) k ≡ field16 info k
  field16_kept k lo hi = omega (
    arith,
    kept k (inr (omega arith)) (omega arith),
    kept (k + 1) (inr (omega arith)) (omega arith),
  )

  field64_kept :
      (k : ℕ) → 36 ≤ k → k + 8 ≤ 4088 → field64 (flagged_info info setf) k ≡ field64 info k
  field64_kept k lo hi =
      omega (arith, word_kept k lo (omega arith), word_kept (k + 4) (omega arith) (omega arith))

  same_kept :
      (off : ℕ) (xs : List ℕ)
      → off + length xs ≤ 32
      → same_at (flagged_info info setf) off xs ≡ same_at info off xs
  same_kept off [] le = refl
  same_kept off (x ∷ xs) le =
      rw (kept off (inl (omega arith)) (omega arith), same_kept (off + 1) xs (omega arith)) refl

  flags_set : word (flagged_info info setf) 32 ≡ u32 (bit_or (word info 32) setf)
  unfolding flagged_info insert_checksum
  flags_set =
      word-put_outside set_bytes 4088 (le64 (checksum set_bytes 4088)) 32 (inr (omega arith))
        (omega (arith, set_size))
      ∙ word-put_inside info 32 (le32 (bit_or (word info 32) setf)) 0 32 (omega arith) (omega arith)
          (omega (arith, size))
      ∙ omega arith

  sums_up : verify_checksum (flagged_info info setf) 4088 ≡ true
  unfolding flagged_info
  sums_up = verify-insert set_bytes 4088 refl (omega (arith, set_size))

  info_of-flagged_info :
      info_of (flagged_info info setf)
      ≡ record (info_of info) { flags = u32 (bit_or (info_of info).flags setf) }
  unfolding info_of
  info_of-flagged_info =
      rw
        (
          flags_set,
          field16_kept 36 (omega arith) (omega arith),
          field16_kept 38 (omega arith) (omega arith),
          word_kept 40 (omega arith) (omega arith),
          word_kept 44 (omega arith) (omega arith),
          word_kept 48 (omega arith) (omega arith),
          word_kept 52 (omega arith) (omega arith),
          word_kept 56 (omega arith) (omega arith),
          word_kept 60 (omega arith) (omega arith),
          field64_kept 64 (omega arith) (omega arith),
          field64_kept 72 (omega arith) (omega arith),
          field64_kept 80 (omega arith) (omega arith),
          field64_kept 88 (omega arith) (omega arith),
          field64_kept 96 (omega arith) (omega arith),
        )
        refl

  still_valid :
      length b.parent_uuid ≡ 16
      → is_valid_info b info ≡ true
      → is_valid_info b (flagged_info info setf) ≡ true
  unfolding is_valid_info
  still_valid uuid valid = ground (
    arith,
    same_kept 0 signature (omega arith),
    same_kept 16 b.parent_uuid (omega (arith, uuid)),
    sums_up,
    field16_kept 36 (omega arith) (omega arith),
  )

  -- If read_info accepts an info block of 4096 bytes, it accepts the block that arena_setf writes
  -- in its place, with the flags added and every other field as before.
  pub read_info-flagged_info :
      length b.parent_uuid ≡ 16
      → (i : Info) → read_info b info ≡ some i
      → read_info b (flagged_info info setf) ≡ some (record i { flags = u32 (bit_or i.flags setf) })
  unfolding read_info
  read_info-flagged_info uuid i e = ground (arith, still_valid uuid, info_of-flagged_info)
