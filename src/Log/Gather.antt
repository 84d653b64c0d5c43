-- ===== src/Log/Gather.antt =====
-- pmemlog_appendv of src/libpmemlog/log.c against pmemlog_append.
use nvml.Base.{
  ℕ, ◌+◌, ◌^◌, ◌<◌, ◌≡◌, sym, ap, ◌∙◌, List, [], ◌∷◌, ◌++◌, length, length-append, arith,
}
use nvml.Base.Words64.{get64-lt, store-nil, store-store_next}
use mathlib.Core.List.{flatten}
use nvml.Namespace.{u64}
use nvml.Log.{Log, write_offset, copy_in, append, appendv, space, copy_all}
use nvml.Log.View.{IsLog}

space_lem :
    (iov : List (List ℕ)) (count : ℕ)
    → count + length (flatten iov) < 2 ^ 64
    → space iov count ≡ count + length (flatten iov)
unfolding space flatten
space_lem [] count h = omega arith
space_lem (buf ∷ iov) count h = omega (
  arith,
  length-append buf (flatten iov),
  space_lem iov (u64 (count + length buf)) (omega (arith, length-append buf (flatten iov))),
)

copy_all_lem :
    (iov : List (List ℕ)) (w : ℕ) (l : Log)
    → w + length (flatten iov) < 2 ^ 64
    → copy_all iov w l ≡ (w + length (flatten iov), copy_in w (flatten iov) l)
unfolding copy_all flatten
copy_all_lem [] w l h =
    sym (ap (λ m. (w, record l { mem = m })) (store-nil l.mem w))
    ∙ ap (λ t. (t, copy_in w [] l)) (omega arith)
copy_all_lem (buf ∷ iov) w l h =
    let len = length-append buf (flatten iov) in
    let next : u64 (w + length buf) ≡ w + length buf = omega (arith, len) in
    rw
      (
        next,
        copy_all_lem iov (w + length buf) (copy_in w buf l) (omega (arith, len)),
        store-store_next l.mem w buf (flatten iov),
      )
      (ap (λ t. (t, copy_in w (buf ++ flatten iov) l)) (omega (arith, len)))

-- Appending gathered buffers is appending their bytes in one buffer, on every branch, if the total
-- length fits in 64 bits.
pub appendv-flatten :
    (iov : List (List ℕ)) (l : Log)
    → IsLog l
    → length (flatten iov) < 2 ^ 64
    → appendv iov l ≡ append (flatten iov) l
unfolding appendv append
appendv-flatten iov l g h = ground (
  arith,
  g.below,
  space_lem iov 0 (omega (arith, h)),
  copy_all_lem iov (write_offset l) l,
  get64-lt l.mem 4104,
)
