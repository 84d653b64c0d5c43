-- ===== src/Btt/Spread.antt =====
-- The arenas of a table lie apart, so that what happens in one leaves the others alone.
use nvml.Base.{
  ℕ, zero, suc, ◌+◌, ◌<◌, ◌≡◌, ◌≢◌, ◌⊎◌, refl, sym, ap, ◌∙◌, inl, inr, List, [], Option, ◌∷◌,
  length, length-set, set, get_elem?, get_elem?-set_self, get_elem?-set_ne, some, none, arith,
}
use nvml.Base.Memory.{Mem, Apart, Agree, Outside}
use nvml.Base.Outcome.{Result, hang}
use nvml.Namespace.{Ns}
use nvml.Btt.{Btt, Arena, FlogRuntime}
use nvml.Btt.View.{IsLaidOut, IsConsistent, contents}
use nvml.Btt.Frame.{region_size, frame-IsConsistent, contents_framed}
use nvml.Btt.Table.{Table}
use nvml.Btt.Lookup.{IsTable, lbas_before}
use native.Mathlib.Decide.{ℕ_discrete}

-- Arenas with different numbers have no byte of their regions in common.
abbrev pub IsSpread : Table → Type 0
IsSpread t =
    (k l : ℕ) (a a' : Arena)
    → get_elem? t.btt.arenas k ≡ some a
    → get_elem? t.btt.arenas l ≡ some a'
    → k ≢ l
    → Apart a.dataoff (region_size t.btt a) a'.dataoff (region_size t.btt a')

-- The contents of a block of the arena with a number. No arena: the lookup does not return.
abbrev pub contents_at : Btt → Mem → Option Arena → ℕ → Result (List ℕ)
contents_at b m none p = hang
contents_at b m (some a) p = contents b a m p

abbrev pub block_at : Table → ℕ → ℕ → Result (List ℕ)
block_at t k p = contents_at t.btt t.ns.mem (get_elem? t.btt.arenas k) p

-- The arena with other flogs.
abbrev pub with_flogs : Arena → List FlogRuntime → Arena
with_flogs a fl = record a { flogs = fl }

-- The table after a change in one arena.
abbrev pub changed : Table → ℕ → Arena → Ns → Table
changed t k a ns = record { ns = ns; btt = record (t.btt) { arenas = set t.btt.arenas k a } }

no_arena : {a : Arena} → ¬ (none ≡ some a)
no_arena e = cc

elem-lt : (xs : List Arena) (k : ℕ) (a : Arena) → get_elem? xs k ≡ some a → k < length xs
elem-lt [] k a e = absurd (no_arena e)
elem-lt (x ∷ xs) zero a e = omega arith
elem-lt (x ∷ xs) (suc k) a e = omega (arith, elem-lt xs k a e)

lbas_before-set :
    (xs : List Arena) (k n : ℕ) (a : Arena) (fl : List FlogRuntime)
    → get_elem? xs k ≡ some a
    → lbas_before (set xs k (with_flogs a fl)) n ≡ lbas_before xs n
lbas_before-set xs k zero a fl e = refl
lbas_before-set [] k (suc n) a fl e = refl
lbas_before-set (x ∷ xs) zero (suc n) a fl e =
    let same : x ≡ a = cc in ap (λ (y : Arena). y.external_nlba + lbas_before xs n) (sym same)
lbas_before-set (x ∷ xs) (suc k) (suc n) a fl e =
    ap (λ s. x.external_nlba + s) (lbas_before-set xs k n a fl e)

-- An arena of the changed table is the changed one or one of the others.
set-cases :
    (xs : List Arena) (k l : ℕ) (a a' x : Arena)
    → get_elem? xs k ≡ some a
    → get_elem? (set xs k a') l ≡ some x
    → ((k ≡ l) × (a' ≡ x)) ⊎ ((k ≢ l) × (get_elem? xs l ≡ some x))
set-cases xs k l a a' x here e = elim (ℕ_discrete k l) [
  | yes same ↦
      let at : get_elem? (set xs k a') k ≡ some a' =
        get_elem?-set_self xs k a' (elem-lt xs k a here) in
      inl (same, cc)
  | no ne ↦ inr (ne, sym (get_elem?-set_ne xs a' ne) ∙ e)
]

-- Neither condition on an arena looks at the other arenas of the table, nor layout at the flogs.
IsLaidOut-arenas :
    (b : Btt) (xs : List Arena) (a : Arena) (fl : List FlogRuntime) (size size' : ℕ)
    → size' ≡ size
    → IsLaidOut b a size
    → IsLaidOut (record b { arenas = xs }) (with_flogs a fl) size'
IsLaidOut-arenas b xs a fl size size' e g = record {
  data_end = g.data_end;
  data_small = g.data_small;
  lbasize_pos = g.lbasize_pos;
  lbasize_fits = g.lbasize_fits;
  lbasize_aligned = g.lbasize_aligned;
  map_end = g.map_end;
  flog_pos = g.flog_pos;
  flog_end = rw e g.flog_end;
  size_small = rw e g.size_small;
  nlba_small = g.nlba_small;
  external_le = g.external_le;
  external_valid = g.external_valid;
}

IsConsistent-arenas :
    (b : Btt) (xs : List Arena) (a : Arena) (m : Mem)
    → IsConsistent b a m
    → IsConsistent (record b { arenas = xs }) a m
IsConsistent-arenas b xs a m c = record {
  lanes = c.lanes;
  pairs = c.pairs;
  mapped_in = c.mapped_in;
  free_in = c.free_in;
  mapped_apart = c.mapped_apart;
  free_apart = c.free_apart;
  mapped_not_free = c.mapped_not_free;
}

contents-arenas :
    (b : Btt) (xs : List Arena) (a : Arena) (m : Mem) (p : ℕ)
    → contents (record b { arenas = xs }) a m p ≡ contents b a m p
unfolding contents
contents-arenas b xs a m p = refl

-- A change in one arena that leaves it consistent and touches no byte outside its region.
pub record IsLocal (t : Table) (k : ℕ) (a : Arena) (fl : List FlogRuntime) (ns : Ns) : Type 0 where
  pub here : get_elem? t.btt.arenas k ≡ some a
  pub same_size : ns.datasize ≡ t.ns.datasize
  pub still : IsConsistent t.btt (with_flogs a fl) ns.mem
  pub outside : (x : ℕ) → Outside a.dataoff (region_size t.btt a) x → ns.mem x ≡ t.ns.mem x

module _ (t : Table) (k : ℕ) (a : Arena) (fl : List FlogRuntime) (ns : Ns) (h : IsTable t)
    (s : IsSpread t) (c : IsLocal t k a fl ns) where
  abbrev t' : Table
  t' = changed t k (with_flogs a fl) ns

  cases :
      (l : ℕ) (x : Arena)
      → get_elem? t'.btt.arenas l ≡ some x
      → ((k ≡ l) × (with_flogs a fl ≡ x)) ⊎ ((k ≢ l) × (get_elem? t.btt.arenas l ≡ some x))
  cases l x e = set-cases t.btt.arenas k l a (with_flogs a fl) x c.here e

  same_bytes :
      (l : ℕ) (x : Arena)
      → get_elem? t.btt.arenas l ≡ some x
      → k ≢ l
      → Agree x.dataoff (region_size t.btt x) ns.mem t.ns.mem
  same_bytes l x e ne y lo hi = c.outside y (omega (arith, s k l a x c.here e ne))

  laid_out_kept :
      (l : ℕ) (x : Arena) → get_elem? t'.btt.arenas l ≡ some x → IsLaidOut t'.btt x ns.datasize
  laid_out_kept l x e = elim (cases l x e) [
    | inl (same, this) ↦ rw⁻¹ this (
        IsLaidOut-arenas t.btt t'.btt.arenas a fl t.ns.datasize ns.datasize c.same_size
          (h.laid_out k a c.here))
    | inr (ne, that) ↦
        IsLaidOut-arenas t.btt t'.btt.arenas x x.flogs t.ns.datasize ns.datasize c.same_size
          (h.laid_out l x that)
  ]

  consistent_kept :
      (l : ℕ) (x : Arena) → get_elem? t'.btt.arenas l ≡ some x → IsConsistent t'.btt x ns.mem
  consistent_kept l x e = elim (cases l x e) [
    | inl (same, this) ↦
        rw⁻¹ this (IsConsistent-arenas t.btt t'.btt.arenas (with_flogs a fl) ns.mem c.still)
    | inr (ne, that) ↦ IsConsistent-arenas t.btt t'.btt.arenas x ns.mem (
        frame-IsConsistent t.btt x t.ns.datasize (h.laid_out l x that) t.ns.mem ns.mem
          (h.consistent l x that) (same_bytes l x that ne))
  ]

  pub changed-IsTable : IsTable t'
  changed-IsTable = record {
    laidout = h.laidout;
    arenas_all = length-set t.btt.arenas k (with_flogs a fl) ∙ h.arenas_all;
    lbas_all = lbas_before-set t.btt.arenas k t.btt.narena a fl c.here ∙ h.lbas_all;
    laid_out = laid_out_kept;
    consistent = consistent_kept;
  }

  region_kept :
      (l : ℕ) (x : Arena)
      → get_elem? t'.btt.arenas l ≡ some x
      → (y : Arena) × (get_elem? t.btt.arenas l ≡ some y)
        × (y.dataoff ≡ x.dataoff)
        × (region_size t.btt y ≡ region_size t'.btt x)
  region_kept l x e = elim (cases l x e) [
    | inl (same, this) ↦ (
      a,
      rw⁻¹ same c.here,
      ap (λ (z : Arena). z.dataoff) this,
      ap (λ (z : Arena). region_size t'.btt z) this,
    )
    | inr (ne, that) ↦ (x, that, refl, refl)
  ]

  pub changed-IsSpread : IsSpread t'
  changed-IsSpread l n x y e f ne =
      let (x', at_x, off_x, size_x) = region_kept l x e in
      let (y', at_y, off_y, size_y) = region_kept n y f in
      omega (arith, s l n x' y' at_x at_y ne, off_x, off_y, size_x, size_y)

  -- The other arenas stand for what they did.
  pub others_kept :
      (l : ℕ) (x : Arena) (p : ℕ)
      → get_elem? t.btt.arenas l ≡ some x
      → k ≢ l
      → p < x.external_nlba
      → block_at t' l p ≡ block_at t l p
  others_kept l x p e ne lt =
      ap (λ o. contents_at t'.btt ns.mem o p)
        (get_elem?-set_ne t.btt.arenas (with_flogs a fl) ne ∙ e)
      ∙ contents-arenas t.btt t'.btt.arenas x ns.mem p
      ∙ contents_framed t.btt x t.ns.datasize (h.laid_out l x e) t.ns.mem ns.mem
          (h.consistent l x e) (same_bytes l x e ne) p lt
      ∙ ap (λ o. contents_at t.btt t.ns.mem o p) (sym e)

  pub here_kept : get_elem? t'.btt.arenas k ≡ some (with_flogs a fl)
  here_kept = get_elem?-set_self t.btt.arenas k (with_flogs a fl) (elem-lt t.btt.arenas k a c.here)

  pub lbas_kept : lbas_before t'.btt.arenas k ≡ lbas_before t.btt.arenas k
  lbas_kept = lbas_before-set t.btt.arenas k k a fl c.here

  -- A block of the changed arena.
  pub block_here : (p : ℕ) → block_at t' k p ≡ contents t.btt (with_flogs a fl) ns.mem p
  block_here p =
      ap (λ o. contents_at t'.btt ns.mem o p) here_kept
      ∙ contents-arenas t.btt t'.btt.arenas (with_flogs a fl) ns.mem p

-- The table has the same blocks and contents but for one block, which has new contents.
pub record Updates (t t' : Table) (k p : ℕ) (v : Result (List ℕ)) : Type 0 where
  pub table : IsTable t'
  pub spread : IsSpread t'
  pub new : block_at t' k p ≡ v
  pub old :
      (l : ℕ) (x : Arena) (q : ℕ)
      → get_elem? t.btt.arenas l ≡ some x
      → q < x.external_nlba
      → (k ≢ l) ⊎ (q ≢ p)
      → block_at t' l q ≡ block_at t l q
  pub same_btt : t'.btt ≡ record (t.btt) { arenas = t'.btt.arenas }
  pub same_arenas :
      (l : ℕ) (x : Arena)
      → get_elem? t'.btt.arenas l ≡ some x
      → (y : Arena) × (get_elem? t.btt.arenas l ≡ some y) × (x ≡ with_flogs y x.flogs)
  pub arenas_kept :
      (l : ℕ) (x : Arena)
      → get_elem? t.btt.arenas l ≡ some x
      → (f : List FlogRuntime) × (get_elem? t'.btt.arenas l ≡ some (with_flogs x f))
  pub same_lbas : (l : ℕ) → lbas_before t'.btt.arenas l ≡ lbas_before t.btt.arenas l

pub local-Updates :
    (t : Table) (k : ℕ) (a : Arena) (fl : List FlogRuntime) (ns : Ns) (p : ℕ) (v : Result (List ℕ))
    → IsTable t
    → IsSpread t
    → IsLocal t k a fl ns
    → contents t.btt (with_flogs a fl) ns.mem p ≡ v
    → ((q : ℕ)
        → q < a.external_nlba
        → q ≢ p
        → contents t.btt (with_flogs a fl) ns.mem q ≡ contents t.btt a t.ns.mem q)
    → Updates t (changed t k (with_flogs a fl) ns) k p v
local-Updates t k a fl ns p v h s c new old = record {
  table = changed-IsTable t k a fl ns h s c;
  spread = changed-IsSpread t k a fl ns h s c;
  new = block_here t k a fl ns h s c p ∙ new;
  old = λ l x q e lt other. elim (ℕ_discrete k l) [
    | yes same ↦
        let this : a ≡ x = at_same l x same e in
        let at_k : get_elem? t.btt.arenas l ≡ some a = rw⁻¹ same c.here in
        rw⁻¹ same (block_here t k a fl ns h s c q)
        ∙ old q (rw this lt) (ground (arith, other))
        ∙ ap (λ o. contents_at t.btt t.ns.mem o q) (sym at_k)
    | no ne ↦ others_kept t k a fl ns h s c l x q e ne lt
  ];
  same_btt = refl;
  same_arenas = λ l x e. elim (cases t k a fl ns h s c l x e) [
    | inl (same, this) ↦ (a, rw⁻¹ same c.here, changed_flogs x this)
    | inr (ne, that) ↦ (x, that, refl)
  ];
  arenas_kept = λ l x e. elim (ℕ_discrete k l) [
    | yes same ↦
        let this : a ≡ x = at_same l x same e in
        let at_l : get_elem? t.btt.arenas l ≡ some a = rw⁻¹ same c.here in
        (
          fl,
          ap (λ n. get_elem? (set t.btt.arenas k (with_flogs a fl)) n) (sym same)
              ∙ here_kept t k a fl ns h s c
              ∙ ap (λ z. some (with_flogs z fl)) this,
        )
    | no ne ↦ (x.flogs, get_elem?-set_ne t.btt.arenas (with_flogs a fl) ne ∙ e)
  ];
  same_lbas = λ l. lbas_before-set t.btt.arenas k l a fl c.here;
}
  where
    changed_flogs : (x : Arena) → with_flogs a fl ≡ x → x ≡ with_flogs a x.flogs
    changed_flogs x this = sym this ∙ ap (λ f. with_flogs a f) (ap (λ (z : Arena). z.flogs) this)

    at_same : (l : ℕ) (x : Arena) → k ≡ l → get_elem? t.btt.arenas l ≡ some x → a ≡ x
    at_same l x same e = let f : get_elem? t.btt.arenas l ≡ some a = rw⁻¹ same c.here in cc
