-- ===== src/Btt/Overflow.antt =====
-- Where the data area of an arena is larger than 4 GiB.
use nvml.Base.{ℕ, ◌+◌, ◌*◌, ◌^◌, ◌≡◌, arith}
use nvml.Btt.{Arena}
use nvml.Btt.Block.{data_block_off}

-- The offset of a block is computed by a 32-bit product, so in every arena whose block size
-- divides 4 GiB a block and the one 4 GiB further on have the same offset: btt_read and btt_write
-- take them for one another.
pub data_block_off_alias :
    (a : Arena) (n q : ℕ)
    → q * a.internal_lbasize ≡ 2 ^ 32
    → data_block_off a (n + q) ≡ data_block_off a n
data_block_off_alias a n q h = grind arith
