-- ===== src/Btt/Check/First.antt =====
-- btt_check of src/libpmemblk/btt.c on a table: what it says of the arenas.
use nvml.Base.{
  ℕ, zero, suc, ◌-◌, ◌<◌, ◌≡◌, ◌↔◌, refl, ap, ◌∙◌, List, ◌∷◌, Bool, true, false, ◌&&◌, not, set,
  if◌then◌else◌, arith,
}
use nvml.Base.Outcome.{ok}
use nvml.Btt.{Arena, Dev}
use nvml.Btt.View.{IsLaidOut, block_of, free_of}
use nvml.Btt.Table.{Table, in_arena}
use nvml.Btt.Lookup.{set-get_elem?}
use nvml.Btt.Check.{check_arena, check_first, check_arenas, btt_check}
use nvml.Btt.Check.Division.{IsDivided, check_arena-IsDivided}

and_twice : (c v : Bool) → ((c && v) && v) ≡ (c && v)
and_twice true true = refl
and_twice true false = refl
and_twice false v = refl

module _ (t : Table) (a : Arena) (arenas : List Arena) (laidout : t.btt.laidout ≡ true)
    (shape : t.btt.arenas ≡ a ∷ arenas) (some_arena : 0 < t.btt.narena)
    (g : IsLaidOut t.btt a t.ns.datasize) (lanes : 0 < t.btt.nfree)
    (mapped_in : (i : ℕ) → i < a.external_nlba → block_of a t.ns.mem i < a.internal_nlba)
    (free_in : (k : ℕ) → k < t.btt.nfree → free_of a k < a.internal_nlba) where
  abbrev d : Dev
  d = record { ns = t.ns; arena = a }

  verdict :
      (v : Bool) × (check_arena t.btt d ≡ (ok v, d)) × ((v ≡ true) ↔ IsDivided t.btt a t.ns.mem)
  verdict = check_arena-IsDivided t.btt d g lanes mapped_in free_in

  in_place : in_arena 0 a (check_arena t.btt) t ≡ (ok verdict.0, t)
  in_place =
      let same : set t.btt.arenas 0 a ≡ t.btt.arenas =
        set-get_elem? t.btt.arenas 0 a (rw shape refl) in
      rw verdict.1
        (ap (λ xs. (ok verdict.0, record t { btt = record (t.btt) { arenas = xs } })) same)

  first_lem : check_first t.btt t.btt.arenas t ≡ (ok verdict.0, t)
  unfolding check_first
  first_lem = ap (λ xs. check_first t.btt xs t) shape ∙ in_place

  rounds : (left : ℕ) (c : Bool) → check_arenas (suc left) c t ≡ (ok (c && verdict.0), t)
  unfolding check_arenas
  rounds zero c = rw first_lem refl
  rounds (suc left) c =
      rw (first_lem, rounds left (c && verdict.0)) (ap (λ v. (ok v, t)) (and_twice c verdict.0))

  -- If the first arena of a table with a layout is laid out, and its map and free lists name blocks of
  -- it, btt_check changes nothing and finds the table consistent exactly if every block of the first
  -- arena is named once; the other arenas do not matter.
  pub btt_check-IsDivided :
      (v : Bool) × (btt_check t ≡ (ok v, t)) × ((v ≡ true) ↔ IsDivided t.btt a t.ns.mem)
  unfolding btt_check
  btt_check-IsDivided = (verdict.0, run, verdict.2)
    where
      run : btt_check t ≡ (ok verdict.0, t)
      run =
          let e : t.btt.narena ≡ suc (t.btt.narena - 1) = omega arith in
          let all = rounds (t.btt.narena - 1) true in
          ap (λ l. if not l then (ok true, t) else check_arenas t.btt.narena true t) laidout
          ∙ ap (λ n. check_arenas n true t) e
          ∙ all
