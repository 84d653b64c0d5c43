-- ===== src/Btt/Array.antt =====
-- What a table promises its callers: an array of blocks, indexed by LBA over all arenas.
use nvml.Base.{
  ℕ, zero, suc, ◌+◌, ◌-◌, ◌^◌, ◌<◌, ◌≤◌, ◌≡◌, ◌≢◌, ◌⊎◌, refl, sym, ap, ◌∙◌, inl, inr, List, [], ◌∷◌,
  Option, length, bit_and, take, false, replicate, some, none, get_elem?, arith,
}
use nvml.Base.Outcome.{Result, ok, err, hang, eio}
use nvml.Btt.{Btt, Arena, flag_error}
use nvml.Btt.Entry.{error_entry}
use nvml.Btt.Block.{being_read}
use nvml.Btt.View.{contents}
use nvml.Btt.Stores.{new_entry}
use nvml.Btt.Table.{Table, Place, lba_to_arena_lba, btt_read}
use nvml.Btt.Lookup.{IsTable, lbas_before, place_lem, btt_read-contents}
use nvml.Btt.Spread.{IsSpread, Updates, block_at, contents_at, with_flogs}
use nvml.Btt.Update.{btt_write, btt_set_zero, btt_set_error}
use nvml.Btt.Entire.{btt_write-Updates, btt_set_zero-Updates, btt_set_error-Updates}
use native.Mathlib.Decide.{dec_lt, ℕ_discrete}

-- The first `n` slots of the read tracking table are free.
abbrev pub IsIdle : Btt → Arena → Type 0
IsIdle b a = (lane : ℕ) → lane < b.nlane → get_elem? a.rtt lane ≡ some error_entry

-- A table between two calls, none of whose arenas is in an error state.
pub record IsReady (t : Table) : Type 0 where
  pub table : IsTable t
  pub spread : IsSpread t
  pub lanes : 0 < t.btt.nlane
  pub enough_free : t.btt.nlane ≤ t.btt.nfree
  pub idle : (k : ℕ) (a : Arena) → get_elem? t.btt.arenas k ≡ some a → IsIdle t.btt a
  pub clear :
      (k : ℕ) (a : Arena) → get_elem? t.btt.arenas k ≡ some a → bit_and a.flags flag_error ≡ 0

abbrev pub contents_of : Table → Option Place → Result (List ℕ)
contents_of t none = hang
contents_of t (some (k, a, p)) = contents t.btt a t.ns.mem p

-- The contents of the block with an LBA.
unfoldable pub block : Table → ℕ → Result (List ℕ)
block t lba = contents_of t (lba_to_arena_lba t.btt lba)

-- The table is as before, but that the block with an LBA has new contents.
pub record Assigns (t t' : Table) (lba : ℕ) (v : Result (List ℕ)) : Type 0 where
  pub ready : IsReady t'
  pub nlba_same : t'.btt.nlba ≡ t.btt.nlba
  pub lbasize_same : t'.btt.lbasize ≡ t.btt.lbasize
  pub nlane_same : t'.btt.nlane ≡ t.btt.nlane
  pub new : block t' lba ≡ v
  pub old : (j : ℕ) → j < t.btt.nlba → j ≢ lba → block t' j ≡ block t j

-- Every LBA before the end is that of a block of an arena.
place_exists :
    (xs : List Arena) (n lba : ℕ)
    → length xs ≡ n
    → lba < lbas_before xs n
    → (k : ℕ) × (a : Arena) × (p : ℕ) × (get_elem? xs k ≡ some a)
      × (p < a.external_nlba)
      × (lba ≡ lbas_before xs k + p)
place_exists [] zero lba e h = absurd (omega arith)
place_exists [] (suc n) lba e h = absurd (omega arith)
place_exists (x ∷ xs) zero lba e h = absurd (omega arith)
place_exists (x ∷ xs) (suc n) lba e h = elim (dec_lt lba x.external_nlba) [
  | yes lt ↦ (0, x, lba, refl, lt, omega arith)
  | no ge ↦
      let (k, a, p, at, lt, same) =
        place_exists xs n (lba - x.external_nlba) (omega arith) (omega arith) in
      (suc k, a, p, at, lt, omega arith)
]

module _ (t : Table) (h : IsTable t) where
  pub place_of :
      (lba : ℕ)
      → lba < t.btt.nlba
      → (k : ℕ) × (a : Arena) × (p : ℕ) × (get_elem? t.btt.arenas k ≡ some a)
        × (p < a.external_nlba)
        × (lba ≡ lbas_before t.btt.arenas k + p)
  place_of lba lt = place_exists t.btt.arenas t.btt.narena lba h.arenas_all (rw h.lbas_all lt)

  block_lem :
      (k : ℕ) (a : Arena) (p : ℕ)
      → get_elem? t.btt.arenas k ≡ some a
      → p < a.external_nlba
      → block t (lbas_before t.btt.arenas k + p) ≡ contents t.btt a t.ns.mem p
  unfolding block
  block_lem k a p e lt = ap (λ o. contents_of t o) (place_lem t k a p h e lt).1

module _ (t t' : Table) (k p : ℕ) (a : Arena) (v : Result (List ℕ)) (r : IsReady t)
    (u : Updates t t' k p v) (here : get_elem? t.btt.arenas k ≡ some a)
    (p_in : p < a.external_nlba) where
  -- Looking up an LBA is looking up the block of its arena, before and after.
  block_before :
      (l : ℕ) (x : Arena) (q : ℕ)
      → get_elem? t.btt.arenas l ≡ some x
      → q < x.external_nlba
      → block t (lbas_before t.btt.arenas l + q) ≡ block_at t l q
  block_before l x q e lt =
      block_lem t r.table l x q e lt ∙ ap (λ o. contents_at t.btt t.ns.mem o q) (sym e)

  block_after :
      (l : ℕ) (x : Arena) (q : ℕ)
      → get_elem? t.btt.arenas l ≡ some x
      → q < x.external_nlba
      → block t' (lbas_before t.btt.arenas l + q) ≡ block_at t' l q
  block_after l x q e lt =
      let (f, at) = u.arenas_kept l x e in
      ap (λ n. block t' (n + q)) (sym (u.same_lbas l))
      ∙ block_lem t' u.table l (with_flogs x f) q at lt
      ∙ ap (λ o. contents_at t'.btt t'.ns.mem o q) (sym at)

  IsReady-kept : IsReady t'
  IsReady-kept = record {
    table = u.table;
    spread = u.spread;
    lanes = rw (ap (λ (b : Btt). b.nlane) u.same_btt) r.lanes;
    enough_free =
        omega
          (arith, ap (λ (b : Btt). b.nlane) u.same_btt, ap (λ (b : Btt). b.nfree) u.same_btt, r);
    idle = λ l x e lane lt.
        let (y, at, same) = u.same_arenas l x e in
        ap (λ (z : Arena). get_elem? z.rtt lane) same
        ∙ r.idle l y at lane (omega (arith, ap (λ (b : Btt). b.nlane) u.same_btt, lt));
    clear = λ l x e.
        let (y, at, same) = u.same_arenas l x e in
        ap (λ (z : Arena). bit_and z.flags flag_error) same ∙ r.clear l y at;
  }

  old_kept : (j : ℕ) → j < t.btt.nlba → j ≢ lbas_before t.btt.arenas k + p → block t' j ≡ block t j
  old_kept j lt ne =
      let (l, x, q, at, q_in, same) = place_of t r.table j lt in
      let other : (k ≢ l) ⊎ (q ≢ p) = elim (ℕ_discrete k l) [
        | yes e ↦ inr (λ f. ne (
            same
            ∙ ap (λ n. lbas_before t.btt.arenas n + q) (sym e)
            ∙ ap (λ n. lbas_before t.btt.arenas k + n) f))
        | no n ↦ inl n
      ] in
      ap (λ n. block t' n) same
      ∙ block_after l x q at q_in
      ∙ u.old l x q at q_in other
      ∙ sym (ap (λ n. block t n) same ∙ block_before l x q at q_in)

  update-Assigns : Assigns t t' (lbas_before t.btt.arenas k + p) v
  update-Assigns = record {
    ready = IsReady-kept;
    nlba_same = ap (λ (b : Btt). b.nlba) u.same_btt;
    lbasize_same = ap (λ (b : Btt). b.lbasize) u.same_btt;
    nlane_same = ap (λ (b : Btt). b.nlane) u.same_btt;
    new = block_after k a p here p_in ∙ u.new;
    old = old_kept;
  }

-- No lane reads the free block of another.
being_read-idle :
    (rtt : List ℕ) (n e : ℕ)
    → ((lane : ℕ) → lane < n → get_elem? rtt lane ≡ some error_entry)
    → 2 ^ 31 ≤ e
    → being_read (take n rtt) e ≡ false
unfolding being_read
being_read-idle [] zero e h le = refl
being_read-idle [] (suc n) e h le = refl
being_read-idle (x ∷ rtt) zero e h le = refl
being_read-idle (x ∷ rtt) (suc n) e h le =
    let first : some x ≡ some error_entry = h 0 (omega arith) in
    let rest = being_read-idle rtt n e (λ lane lt. h (suc lane) (omega arith)) le in
    ground (arith, first)

module _ (t : Table) (lane lba : ℕ) (r : IsReady t) (lane_in : lane < t.btt.nlane)
    (lba_in : lba < t.btt.nlba) where
  -- btt_read of a valid LBA of a table that is ready gives the contents of the block.
  pub btt_read-block : btt_read lane lba t ≡ (block t lba, t)
  btt_read-block =
      let (k, a, p, at, p_in, same) = place_of t r.table lba lba_in in
      rw same (
        (btt_read-contents t lane k a p r.table at p_in (r.idle k a at lane lane_in)).0
        ∙ ap (λ v. (v, t)) (sym (block_lem t r.table k a p at p_in)))

  pub btt_write-Assigns :
      (buf : List ℕ)
      → length buf ≡ t.btt.lbasize
      → let (res, t') = btt_write lane lba buf t in (res ≡ ok tt) × Assigns t t' lba (ok buf)
  btt_write-Assigns buf full =
      let (k, a, p, at, p_in, same) = place_of t r.table lba lba_in in
      let (done, u) =
        btt_write-Updates t k a p r.table r.spread at p_in lane buf (omega (arith, r, lane_in)) full
          (r.clear k a at)
          (being_read-idle a.rtt t.btt.nlane (new_entry a lane) (r.idle k a at) (omega arith)) in
      rw same (done, update-Assigns t _ k p a (ok buf) r u at p_in)

  pub btt_set_zero-Assigns :
      let (res, t') = btt_set_zero lane lba t in
      (res ≡ ok tt) × Assigns t t' lba (ok (replicate t.btt.lbasize 0))
  btt_set_zero-Assigns =
      let (k, a, p, at, p_in, same) = place_of t r.table lba lba_in in
      let (done, u) =
        btt_set_zero-Updates t k a p r.table r.spread at p_in lane (omega (arith, r))
          (r.clear k a at) in
      rw same (done, update-Assigns t _ k p a (ok (replicate t.btt.lbasize 0)) r u at p_in)

  pub btt_set_error-Assigns :
      let (res, t') = btt_set_error lane lba t in (res ≡ ok tt) × Assigns t t' lba (err eio)
  btt_set_error-Assigns =
      let (k, a, p, at, p_in, same) = place_of t r.table lba lba_in in
      let (done, u) =
        btt_set_error-Updates t k a p r.table r.spread at p_in lane (omega (arith, r))
          (r.clear k a at) in
      rw same (done, update-Assigns t _ k p a (err eio) r u at p_in)
