-- ===== src/Btt/InfoBlock.antt =====
-- read_info of src/libpmemblk/btt.c: the fields of `struct btt_info`, and what makes them valid.
use nvml.Base.{
  ℕ, ◌+◌, ◌*◌, ◌%◌, List, [], ◌∷◌, Bool, true, ◌==◌, ◌&&◌, not, get_or, Option, none, some,
  if◌then◌else◌,
}
use nvml.Base.Memory.{word}
use nvml.Checksum.{field64, verify_checksum}
use nvml.Btt.{Btt, info_flags_off, info_infooff_off, info_checksum_off}

-- The integer fields, in host byte order.
pub record Info : Type 0 where
  pub flags : ℕ
  pub major : ℕ
  pub minor : ℕ
  pub external_lbasize : ℕ
  pub external_nlba : ℕ
  pub internal_lbasize : ℕ
  pub internal_nlba : ℕ
  pub nfree : ℕ
  pub infosize : ℕ
  pub nextoff : ℕ
  pub dataoff : ℕ
  pub mapoff : ℕ
  pub flogoff : ℕ
  pub infooff : ℕ

-- Sig, "BTT_ARENA_INFO\0\0"
abbrev pub signature : List ℕ
signature = 66 ∷ 84 ∷ 84 ∷ 95 ∷ 65 ∷ 82 ∷ 69 ∷ 78 ∷ 65 ∷ 95 ∷ 73 ∷ 78 ∷ 70 ∷ 79 ∷ 0 ∷ 0 ∷ []

-- memcmp finds the bytes equal.
abbrev pub same_at : List ℕ → ℕ → List ℕ → Bool
same_at bytes off [] = true
same_at bytes off (x ∷ xs) = get_or bytes off 0 == x && same_at bytes (off + 1) xs

-- A 16-bit field.
abbrev pub field16 : List ℕ → ℕ → ℕ
field16 bytes off = get_or bytes off 0 % 256 + get_or bytes (off + 1) 0 % 256 * 256

-- The tests, in their order.
unfoldable pub is_valid_info : Btt → List ℕ → Bool
is_valid_info b bytes =
    same_at bytes 0 signature
    && same_at bytes 16 b.parent_uuid
    && verify_checksum bytes info_checksum_off
    && not (field16 bytes 36 == 0)

unfoldable pub info_of : List ℕ → Info
info_of bytes = record {
  flags = word bytes info_flags_off;
  major = field16 bytes 36;
  minor = field16 bytes 38;
  external_lbasize = word bytes 40;
  external_nlba = word bytes 44;
  internal_lbasize = word bytes 48;
  internal_nlba = word bytes 52;
  nfree = word bytes 56;
  infosize = word bytes 60;
  nextoff = field64 bytes 64;
  dataoff = field64 bytes 72;
  mapoff = field64 bytes 80;
  flogoff = field64 bytes 88;
  infooff = field64 bytes info_infooff_off;
}

-- `none`: the block is not valid.
unfoldable pub read_info : Btt → List ℕ → Option Info
read_info b bytes = if is_valid_info b bytes then some (info_of bytes) else none
