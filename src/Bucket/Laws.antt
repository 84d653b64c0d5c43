-- ===== src/Bucket/Laws.antt =====
-- Classes of buckets in src/libpmemobj/bucket.c.
use nvml.Base.{
  ℕ, zero, suc, ◌<◌, ◌≡◌, ◌≢◌, refl, sym, ap, ◌∙◌, List, [], ◌∷◌, true, set, get_or, ◌==◌, Option,
  none, some, length, get_or-set_self, set-set_restore, get_elem?, if_true, if_false, arith,
}
use native.Mathlib.Decide.{ℕ_discrete}
use nvml.Bucket.{register_class, unregister_class, behind}

no_class : {x : ℕ × List ℕ} → ¬ (none ≡ some x)
no_class h = cc

behind-some :
    (u : ℕ) (o : Option (ℕ × List ℕ)) (id : ℕ) (classes : List ℕ)
    → behind u o ≡ some (id, classes)
    → (j : ℕ) × (rest : List ℕ) × (o ≡ some (j, rest)) × (suc j ≡ id) × (u ∷ rest ≡ classes)
behind-some u none id classes e = absurd (no_class e)
behind-some u (some (j, rest)) id classes e = (j, rest, refl, cc, cc)

-- The first free slot holds the new class.
register_class_lem :
    (classes : List ℕ) (c id : ℕ) (classes' : List ℕ)
    → register_class classes c ≡ some (id, classes')
    → (get_elem? classes id ≡ some 0) × (set classes id c ≡ classes')
unfolding register_class
register_class_lem [] c id classes' e = absurd (no_class e)
register_class_lem (u ∷ classes) c id classes' e = elim (ℕ_discrete u 0) [
  | yes z ↦
      let e' : some (0, c ∷ classes) ≡ some (id, classes') =
        sym (if_true (u == 0) _ (behind u (register_class classes c)) (ground arith)) ∙ e in
      let at : 0 ≡ id = cc in let whole : c ∷ classes ≡ classes' = cc in rw⁻¹ at (ap some z, whole)
  | no nz ↦
      let e' : behind u (register_class classes c) ≡ some (id, classes') =
        sym (if_false (u == 0) (some (0, c ∷ classes)) _ (ground arith)) ∙ e in
      let (j, rest, found, at, whole) = behind-some u (register_class classes c) id classes' e' in
      let (free, filled) = register_class_lem classes c j rest found in
      rw⁻¹ at (free, ap (λ t. u ∷ t) filled ∙ whole)
]

elem-lt : (xs : List ℕ) (i v : ℕ) → get_elem? xs i ≡ some v → i < length xs
elem-lt [] i v e = absurd (nothing e)
  where
    nothing : {x : ℕ} → ¬ (none ≡ some x)
    nothing h = cc
elem-lt (x ∷ xs) zero v e = omega arith
elem-lt (x ∷ xs) (suc i) v e = omega (arith, elem-lt xs i v e)

-- A class that was registered can be unregistered, which gives the classes back as they were.
pub unregister-register_class :
    (classes : List ℕ) (c id : ℕ) (classes' : List ℕ)
    → c ≢ 0
    → register_class classes c ≡ some (id, classes')
    → unregister_class classes' id ≡ (true, classes)
unfolding unregister_class
unregister-register_class classes c id classes' ne e =
    let (free, filled) = register_class_lem classes c id classes' e in
    let there : get_or (set classes id c) id 0 ≡ c =
      get_or-set_self classes id c 0 (elem-lt classes id 0 free) in
    rw⁻¹ filled (
      if_false (get_or (set classes id c) id 0 == 0) _ _ (ground (arith, there))
      ∙ ap (λ t. (true, t)) (set-set_restore classes id 0 c free))
