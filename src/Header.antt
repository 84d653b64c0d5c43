-- ===== src/Header.antt =====
-- The pool header of src/common/util.h and util.c: `struct pool_hdr` as its 4096 bytes, and
-- util_convert_hdr, util_feature_check and util_is_zeroed on them. The host is little-endian.
pub mod Create
pub mod Tests
use nvml.Base.{
  ℕ, ◌-◌, ◌^◌, List, [], ◌∷◌, ◌++◌, Bool, true, false, ◌==◌, ◌&&◌, not, bit_and, replicate,
  if◌then◌else◌,
}
use nvml.Base.Memory.{word, le32, le64}
use nvml.Checksum.{insert_checksum, verify_checksum}

-- The number of bytes of the header, and the offsets of its fields.
abbrev pub hdr_size : ℕ
hdr_size = 4096

abbrev pub hdr_major_off : ℕ
hdr_major_off = 8

abbrev pub hdr_compat_off : ℕ
hdr_compat_off = 12

abbrev pub hdr_incompat_off : ℕ
hdr_incompat_off = 16

abbrev pub hdr_ro_compat_off : ℕ
hdr_ro_compat_off = 20

abbrev pub hdr_uuid_off : ℕ
hdr_uuid_off = 24

abbrev pub hdr_checksum_off : ℕ
hdr_checksum_off = 4088

-- Whether util_convert_hdr finds the header valid.
unfoldable pub convert_hdr : List ℕ → Bool
convert_hdr hdr =
    if word hdr hdr_major_off == 0 then false else verify_checksum hdr hdr_checksum_off

-- What util_feature_check returns: -1 with EINVAL, 0 and 1.
pub data Features : Type 0 where
  unknown_incompat unknown_ro_compat supported : Features

-- x & ~mask over uint32_t
abbrev pub not_masked_bits : ℕ → ℕ → ℕ
not_masked_bits x mask = bit_and x (2 ^ 32 - 1 - mask)

unfoldable pub feature_check : List ℕ → ℕ → ℕ → Features
feature_check hdr incompat ro_compat =
    if not (not_masked_bits (word hdr hdr_incompat_off) incompat == 0)
    then unknown_incompat
    else if not (not_masked_bits (word hdr hdr_ro_compat_off) ro_compat == 0)
    then unknown_ro_compat
    else supported

unfoldable pub is_zeroed : List ℕ → Bool
is_zeroed [] = true
is_zeroed (x ∷ xs) = x == 0 && is_zeroed xs

-- The header of a new pool: its signature of 8 bytes, the UUID that libuuid generates and the time.
unfoldable pub new_hdr : List ℕ → ℕ → List ℕ → ℕ → List ℕ
new_hdr signature major uuid crtime =
    insert_checksum
      (signature
        ++ (le32 major
            ++ (le32 0 ++ (le32 0 ++ (le32 0 ++ (uuid ++ (le64 crtime ++ replicate 4048 0)))))))
      hdr_checksum_off
