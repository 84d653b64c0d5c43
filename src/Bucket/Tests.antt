-- ===== src/Bucket/Tests.antt =====
-- A pool of four classes of buckets, of which the second is free.
use nvml.Base.{◌≡◌, [], ◌∷◌, true, refl, some, arith}
use nvml.Bucket.{register_class, unregister_class}
use nvml.Bucket.Laws.{unregister-register_class}

class_runs : register_class (64 ∷ 0 ∷ 128 ∷ 0 ∷ []) 256 ≡ some (1, 64 ∷ 256 ∷ 128 ∷ 0 ∷ [])
unfolding register_class
class_runs = refl

unregister-register_class_example :
    unregister_class (64 ∷ 256 ∷ 128 ∷ 0 ∷ []) 1 ≡ (true, 64 ∷ 0 ∷ 128 ∷ 0 ∷ [])
unregister-register_class_example =
    unregister-register_class (64 ∷ 0 ∷ 128 ∷ 0 ∷ []) 256 1 (64 ∷ 256 ∷ 128 ∷ 0 ∷ []) (omega arith)
      class_runs
