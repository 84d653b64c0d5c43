-- ===== src/Btt/Entry.antt =====
-- Map entries of src/libpmemblk/btt.c: a post-map LBA in the low 30 bits, and two state bits.
use nvml.Base.{
  ℕ, ◌+◌, ◌*◌, ◌/◌, ◌%◌, ◌^◌, ◌<◌, ◌≡◌, ◌∙◌, ap, Bool, ◌||◌, bit_and, bit_or, ◌==◌, arith,
}
use nvml.Base.Bits.{bit_and_high, bit_and_low, bit_or_disjoint}

abbrev pub error_entry : ℕ
error_entry = 0x40000000

abbrev pub zero_entry : ℕ
zero_entry = 0x80000000

abbrev pub normal_entry : ℕ
normal_entry = 0xC0000000

abbrev pub lba_mask : ℕ
lba_mask = 0x3fffffff

-- entry & ~BTT_MAP_ENTRY_LBA_MASK, over uint32_t
unfoldable pub entry_flags : ℕ → ℕ
entry_flags entry = bit_and entry 0xC0000000

-- entry & BTT_MAP_ENTRY_LBA_MASK
unfoldable pub entry_lba : ℕ → ℕ
entry_lba entry = bit_and entry lba_mask

-- lba | BTT_MAP_ENTRY_NORMAL
unfoldable pub normal : ℕ → ℕ
normal lba = bit_or lba normal_entry

unfoldable pub map_entry_is_zero : ℕ → Bool
map_entry_is_zero entry = entry_flags entry == zero_entry

unfoldable pub map_entry_is_error : ℕ → Bool
map_entry_is_error entry = entry_flags entry == error_entry

unfoldable pub map_entry_is_initial : ℕ → Bool
map_entry_is_initial entry = entry_flags entry == 0

unfoldable pub map_entry_is_zero_or_initial : ℕ → Bool
map_entry_is_zero_or_initial entry = entry_flags entry == 0 || entry_flags entry == zero_entry

pub entry_lba-mod : (e : ℕ) → entry_lba e ≡ e % 2 ^ 30
unfolding entry_lba
entry_lba-mod e = bit_and_low 30 e

pub entry_flags-div : (e : ℕ) → e < 2 ^ 32 → entry_flags e ≡ e / 2 ^ 30 * 2 ^ 30
unfolding entry_flags
entry_flags-div e h =
    bit_and_high 30 e 3 ∙ ap (λ t. t * 2 ^ 30) (bit_and_low 2 (e / 2 ^ 30) ∙ omega arith)

pub normal-add : (lba : ℕ) → lba < 2 ^ 30 → normal lba ≡ lba + 3 * 2 ^ 30
unfolding normal
normal-add lba h = bit_or_disjoint 30 lba 3 h

-- The state tests by the value of the two state bits.
module _ (e : ℕ) (h : e < 2 ^ 32) where
  pub is_error_lem : map_entry_is_error e ≡ (e / 2 ^ 30 == 1)
  unfolding map_entry_is_error
  is_error_lem = ground (arith, entry_flags-div e h)

  pub is_initial_lem : map_entry_is_initial e ≡ (e / 2 ^ 30 == 0)
  unfolding map_entry_is_initial
  is_initial_lem = ground (arith, entry_flags-div e h)

  pub is_zero_or_initial_lem : map_entry_is_zero_or_initial e ≡ (e / 2 ^ 30 == 0 || e / 2 ^ 30 == 2)
  unfolding map_entry_is_zero_or_initial
  is_zero_or_initial_lem = ground (arith, entry_flags-div e h)
