-- ===== src/Btt/LayoutTests.antt =====
-- The plan of a small namespace, and check_arena on the arena of Tests.
use nvml.Base.{◌*◌, ◌^◌, ◌≤◌, ◌≡◌, ◌↔◌, refl, [], Bool, true, some, arith}
use nvml.Base.Outcome.{ok}
use nvml.Btt.Geometry.{Plan, plan_arena, count_blocks, adjust_lbasize, flog_area}
use nvml.Btt.Bounds.{IsPlanned, plan_arena-IsPlanned}
use nvml.Namespace.{Ns}
use nvml.Btt.Layout.{btt_init}
use nvml.Btt.Returns.{returned, btt_init_returns}
use nvml.Btt.Check.{check_arena, btt_check}
use nvml.Btt.Check.First.{btt_check-IsDivided}
use nvml.Btt.TableTests.{table}
use nvml.Btt.Check.Division.{IsDivided, check_arena-IsDivided}
use nvml.Btt.Tests.{arena, media, btt, dev, dev-IsLaidOut, dev-IsConsistent}

size_512 : adjust_lbasize 512 ≡ some 512
unfolding adjust_lbasize
size_512 = refl

flog_256 : flog_area 256 ≤ 2 ^ 22
unfolding flog_area
flog_256 = omega arith

many_blocks : 2 * 256 ≤ count_blocks 256 512 16777216
unfolding count_blocks flog_area
many_blocks = omega arith

-- 16 MiB with 256 lanes and blocks of 512 bytes.
plan_arena-IsPlanned_example :
    (p : Plan) × (plan_arena 256 512 16777216 ≡ some p)
    × (p.internal_lbasize ≡ 512)
    × IsPlanned 256 16777216 p
plan_arena-IsPlanned_example =
    plan_arena-IsPlanned 256 512 512 16777216 (omega arith) flog_256 (omega arith) size_512
      (omega arith) many_blocks

btt_check-IsDivided_example :
    (v : Bool) × (btt_check table ≡ (ok v, table)) × ((v ≡ true) ↔ IsDivided btt arena media)
btt_check-IsDivided_example =
    btt_check-IsDivided table arena [] refl refl (omega arith) dev-IsLaidOut (omega arith)
      dev-IsConsistent.mapped_in dev-IsConsistent.free_in

check_arena-IsDivided_example :
    (v : Bool) × (check_arena btt dev ≡ (ok v, dev)) × ((v ≡ true) ↔ IsDivided btt arena media)
check_arena-IsDivided_example =
    check_arena-IsDivided btt dev dev-IsLaidOut (omega arith) dev-IsConsistent.mapped_in
      dev-IsConsistent.free_in

-- A namespace of 16 MiB of zeros.
abbrev empty_ns : Ns
empty_ns = record { mem = λ a. 0; datasize = 16777216; is_zeroed = true; journal = [] }

btt_init_returns_example : returned (btt_init 16777216 512 [] 2 empty_ns).0 ≡ true
btt_init_returns_example = btt_init_returns 16777216 512 [] 2 empty_ns
