-- ===== src/Btt.antt =====
-- src/libpmemblk/btt.c and btt_layout.h: the run-time state of a block translation table.
-- `struct btt` is `Btt`; its arenas, the flogs of an arena and the read tracking table are lists,
-- indexed as in C. Mutexes are left out: each call below runs alone on its namespace.
pub mod Entry
pub mod Device
pub mod Info
pub mod FreeList
pub mod Map
pub mod Block
pub mod View
pub mod Seq
pub mod Access
pub mod Read
pub mod Steps
pub mod Touched
pub mod Commit
pub mod Stores
pub mod Write
pub mod Recover
pub mod Reload
pub mod Crash
pub mod Mark
pub mod Overflow
pub mod RoundTrip
pub mod Table
pub mod Lookup
pub mod InfoBlock
pub mod Flagged
pub mod Geometry
pub mod Layout
pub mod Update
pub mod Check
pub mod Bounds
pub mod Frame
pub mod Spread
pub mod Entire
pub mod Array
pub mod Returns
mod Tests
pub mod TableTests
mod InfoTests
mod LayoutTests
use nvml.Base.{ℕ, List, Bool, get_or, []}
use nvml.Namespace.{Ns}

-- One flog entry in host byte order, `struct btt_flog`.
pub record Flog : Type 0 where
  pub lba : ℕ
  pub old_map : ℕ
  pub new_map : ℕ
  pub seq : ℕ

-- `struct flog_runtime`: the current entry, the offsets of the pair, the one to write next.
pub record FlogRuntime : Type 0 where
  pub flog : Flog
  pub entry0 : ℕ
  pub entry1 : ℕ
  pub next : ℕ

-- `struct arena`
pub record Arena : Type 0 where
  pub flags : ℕ
  pub external_nlba : ℕ
  pub internal_lbasize : ℕ
  pub internal_nlba : ℕ
  pub startoff : ℕ
  pub dataoff : ℕ
  pub mapoff : ℕ
  pub flogoff : ℕ
  pub nextoff : ℕ
  pub flogs : List FlogRuntime
  pub rtt : List ℕ

-- `struct btt`, less the namespace.
pub record Btt : Type 0 where
  pub nlane : ℕ
  pub laidout : Bool
  pub parent_uuid : List ℕ
  pub rawsize : ℕ
  pub lbasize : ℕ
  pub nfree : ℕ
  pub nlba : ℕ
  pub narena : ℕ
  pub arenas : List Arena

-- What the code that was handed an `arenap` works on.
pub record Dev : Type 0 where
  pub ns : Ns
  pub arena : Arena

abbrev pub zero_flog : Flog
zero_flog = record { lba = 0; old_map = 0; new_map = 0; seq = 0 }

-- memset of `struct flog_runtime`
abbrev pub zero_runtime : FlogRuntime
zero_runtime = record { flog = zero_flog; entry0 = 0; entry1 = 0; next = 0 }

-- flogs[lane]
abbrev pub flog_at : Arena → ℕ → FlogRuntime
flog_at a lane = get_or a.flogs lane zero_runtime

-- Constants of btt_layout.h.
abbrev pub flog_size : ℕ
flog_size = 16

abbrev pub flog_pair_align : ℕ
flog_pair_align = 64

abbrev pub map_entry_size : ℕ
map_entry_size = 4

-- The number of bytes of `struct btt_info`, and the offsets of its fields that are read.
abbrev pub info_size : ℕ
info_size = 4096

abbrev pub info_flags_off : ℕ
info_flags_off = 32

abbrev pub info_infooff_off : ℕ
info_infooff_off = 96

abbrev pub info_checksum_off : ℕ
info_checksum_off = 4088

-- BTTINFO_FLAG_ERROR, which is BTTINFO_FLAG_ERROR_MASK
abbrev pub flag_error : ℕ
flag_error = 1
