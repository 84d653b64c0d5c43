-- ===== src/Btt/InfoTests.antt =====
-- An info block with the signature, a parent UUID and a major version.
use nvml.Base.{
  ℕ, ◌≡◌, refl, List, ◌∷◌, ◌++◌, replicate, length, true, false, bit_or, some, ◌==◌, arith,
}
use nvml.Namespace.{u32}
use nvml.Checksum.{put, insert_checksum, verify_checksum}
use nvml.Checksum.Laws.{verify-insert}
use nvml.Btt.{Btt}
use nvml.Btt.Info.{flagged_info}
use nvml.Btt.InfoBlock.{read_info, is_valid_info, info_of, signature, same_at, field16}
use nvml.Btt.Flagged.{read_info-flagged_info}
use nvml.Btt.Tests.{btt}

abbrev uuid : List ℕ
uuid = replicate 16 171

abbrev owner : Btt
owner = record btt { parent_uuid = uuid }

abbrev unsummed : List ℕ
unsummed = signature ++ (uuid ++ (0 ∷ 0 ∷ 0 ∷ 0 ∷ 1 ∷ 0 ∷ replicate 4058 0))

abbrev block : List ℕ
block = insert_checksum unsummed 4088

block_size : length block ≡ 4096
unfolding insert_checksum put
block_size = refl

block-signature : same_at block 0 signature ≡ true
unfolding insert_checksum put
block-signature = refl

block-uuid : same_at block 16 uuid ≡ true
unfolding insert_checksum put
block-uuid = refl

block_sum : verify_checksum block 4088 ≡ true
block_sum = verify-insert unsummed 4088 refl (omega arith)

block_major : (field16 block 36 == 0) ≡ false
unfolding insert_checksum put
block_major = refl

block_read : read_info owner block ≡ some (info_of block)
unfolding read_info is_valid_info
block_read = rw (block-signature, block-uuid, block_sum, block_major) refl

read_info-flagged_info_example :
    read_info owner (flagged_info block 1)
    ≡ some (record (info_of block) { flags = u32 (bit_or (info_of block).flags 1) })
read_info-flagged_info_example =
    read_info-flagged_info owner block 1 block_size refl (info_of block) block_read
