-- ===== src/Namespace.antt =====
-- The namespace that libpmemblk gives to the BTT module: the data area of the mapped pool file and
-- the callbacks of src/libpmemblk/blk.c on it. A lane argument is dropped, since no callback reads
-- it. A store is durable when the callback returns; `journal` lists the stores in their order, and
-- a power failure leaves what a beginning of it made.
use nvml.Base.{
  ℕ, zero, suc, take, ◌*◌, ◌+◌, ◌-◌, ◌%◌, ◌^◌, List, [], ◌∷◌, ◌++◌, Bool, length, replicate, ltb,
  leb, if◌then◌else◌,
}
use nvml.Base.Memory.{Mem, load, store}
use nvml.Base.Outcome.{Run, pure, fail, einval}

-- One store: its offset and its bytes.
abbrev pub Store : Type 0
Store = ℕ × List ℕ

pub record Ns : Type 0 where
  pub mem : Mem
  pub datasize : ℕ
  pub is_zeroed : Bool
  pub journal : List Store

-- uint64_t, size_t and off_t arithmetic
abbrev pub u64 : ℕ → ℕ
u64 n = n % 2 ^ 64

-- a - b over uint64_t
abbrev pub sub64 : ℕ → ℕ → ℕ
sub64 a b = u64 (a + 2 ^ 64 - b)

-- uint32_t arithmetic
abbrev pub u32 : ℕ → ℕ
u32 n = n % 2 ^ 32

unfoldable pub nsread : ℕ → ℕ → Run Ns (List ℕ)
nsread count off ns =
    if ltb ns.datasize (u64 (off + count)) then fail einval ns else pure (load ns.mem off count) ns

unfoldable pub nswrite : List ℕ → ℕ → Run Ns (Unit {0})
nswrite buf off ns =
    if ltb ns.datasize (u64 (off + length buf))
    then fail einval ns
    else pure tt
        (record ns { mem = store ns.mem off buf; journal = ns.journal ++ ((off, buf) ∷ []) })

unfoldable pub nszero : ℕ → ℕ → Run Ns (Unit {0})
nszero count off ns =
    if ltb ns.datasize (u64 (off + count))
    then fail einval ns
    else let buf = replicate count 0 in
      pure tt (record ns { mem = store ns.mem off buf; journal = ns.journal ++ ((off, buf) ∷ []) })

-- The length that is mapped: all that was asked for. The address handed out is `off` itself.
unfoldable pub nsmap : ℕ → ℕ → Run Ns ℕ
nsmap len off ns = if leb ns.datasize (u64 (off + len)) then fail einval ns else pure len ns

-- The memory that a power failure leaves: `n` of the stores are there, and of the next one the
-- first `t` words of 4 bytes.
unfoldable pub crash_after : Mem → List Store → ℕ → ℕ → Mem
crash_after m [] n t = m
crash_after m ((off, bs) ∷ js) zero t = store m off (take (4 * t) bs)
crash_after m ((off, bs) ∷ js) (suc n) t = crash_after (store m off bs) js n t
