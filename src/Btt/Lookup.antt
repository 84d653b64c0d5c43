-- ===== src/Btt/Lookup.antt =====
-- btt_read over all arenas: the LBAs of a table are those of its arenas one after the other.
use nvml.Base.{
  ℕ, zero, suc, ◌+◌, ◌-◌, ◌^◌, ◌≤◌, ◌<◌, ◌≡◌, refl, ap, ◌∙◌, List, [], ◌∷◌, length, take_all, set,
  get_elem?, some, none, true, false, ltb, arith,
}
use nvml.Base.Outcome.{err, einval}
use nvml.Btt.{Arena}
use nvml.Btt.Entry.{error_entry}
use nvml.Btt.FreeList.{invalid_lba}
use nvml.Btt.Block.{read_block}
use nvml.Btt.View.{IsLaidOut, IsConsistent, contents}
use nvml.Btt.Read.{read_block-contents}
use nvml.Btt.Table.{Table, find_arena, lba_to_arena_lba, btt_read, at_place}

-- The LBAs of the first `k` arenas.
abbrev pub lbas_before : List Arena → ℕ → ℕ
lbas_before arenas zero = 0
lbas_before [] (suc k) = 0
lbas_before (a ∷ arenas) (suc k) = a.external_nlba + lbas_before arenas k

-- The arenas of a table are laid out and consistent, and its LBAs are theirs.
pub record IsTable (t : Table) : Type 0 where
  pub laidout : t.btt.laidout ≡ true
  pub arenas_all : length t.btt.arenas ≡ t.btt.narena
  pub lbas_all : lbas_before t.btt.arenas t.btt.narena ≡ t.btt.nlba
  pub laid_out :
      (k : ℕ) (a : Arena) → get_elem? t.btt.arenas k ≡ some a → IsLaidOut t.btt a t.ns.datasize
  pub consistent :
      (k : ℕ) (a : Arena) → get_elem? t.btt.arenas k ≡ some a → IsConsistent t.btt a t.ns.mem

find_arena_lem :
    (arenas : List Arena) (k : ℕ) (a : Arena) (p : ℕ)
    → get_elem? arenas k ≡ some a
    → p < a.external_nlba
    → p < 2 ^ 32
    → find_arena arenas (lbas_before arenas k + p) ≡ some (k, a, p)
unfolding find_arena
find_arena_lem [] k a p e h s = cc
find_arena_lem (b ∷ arenas) zero a p e h s = let same : b ≡ a = cc in rw same (ground arith)
find_arena_lem (b ∷ arenas) (suc k) a p e h s =
    let shift : b.external_nlba + lbas_before arenas k + p - b.external_nlba
        ≡ lbas_before arenas k + p =
      omega arith in
    let skip : ltb (b.external_nlba + lbas_before arenas k + p) b.external_nlba ≡ false =
      ground arith in
    rw (skip, shift, find_arena_lem arenas k a p e h s) refl

pub set-get_elem? :
    {A : Type 0} (xs : List A) (k : ℕ) (x : A) → get_elem? xs k ≡ some x → set xs k x ≡ xs
set-get_elem? [] k x e = refl
set-get_elem? (y ∷ xs) zero x e = cc
set-get_elem? (y ∷ xs) (suc k) x e = ap (λ t. y ∷ t) (set-get_elem? xs k x e)

no_arena : {a : Arena} → ¬ (none ≡ some a)
no_arena e = cc

lbas_before-lt :
    (arenas : List Arena) (k : ℕ) (a : Arena) (p n : ℕ)
    → get_elem? arenas k ≡ some a
    → p < a.external_nlba
    → length arenas ≡ n
    → lbas_before arenas k + p < lbas_before arenas n
lbas_before-lt [] k a p n e h l = absurd (no_arena e)
lbas_before-lt (b ∷ arenas) k a p zero e h l = absurd (omega arith)
lbas_before-lt (b ∷ arenas) zero a p (suc n) e h l =
    let same : b ≡ a = cc in omega (arith, ap (λ (x : Arena). x.external_nlba) same)
lbas_before-lt (b ∷ arenas) (suc k) a p (suc n) e h l =
    omega (arith, lbas_before-lt arenas k a p n e h (omega arith))

-- The LBA of a block of an arena is valid, and the lookup finds the block.
pub place_lem :
    (t : Table) (k : ℕ) (a : Arena) (p : ℕ)
    → IsTable t
    → get_elem? t.btt.arenas k ≡ some a
    → p < a.external_nlba
    → (invalid_lba t.btt (lbas_before t.btt.arenas k + p) ≡ false)
      × (lba_to_arena_lba t.btt (lbas_before t.btt.arenas k + p) ≡ some (k, a, p))
unfolding lba_to_arena_lba invalid_lba
place_lem t k a p g e h = (
  ground (arith, lbas_before-lt t.btt.arenas k a p t.btt.narena e h, g.arenas_all, g.lbas_all),
  rw (take_all t.btt.narena t.btt.arenas (omega (arith, g.arenas_all)))
      (find_arena_lem t.btt.arenas k a p e h (omega (arith, g.laid_out k a e))),
)

-- In a table of laid out and consistent arenas, reading the LBA of a block of any arena gives the
-- contents of that block and leaves the table as it was, and reading an LBA past the last one fails
-- with EINVAL.
pub btt_read-contents :
    (t : Table) (lane k : ℕ) (a : Arena) (p : ℕ)
    → IsTable t
    → get_elem? t.btt.arenas k ≡ some a
    → p < a.external_nlba
    → get_elem? a.rtt lane ≡ some error_entry
    → (btt_read lane (lbas_before t.btt.arenas k + p) t ≡ (contents t.btt a t.ns.mem p, t))
      × ((lba : ℕ) → t.btt.nlba ≤ lba → btt_read lane lba t ≡ (err einval, t))
unfolding btt_read
btt_read-contents t lane k a p g e h idle = (
  ground (arith, (place_lem t k a p g e h).0, g.laidout)
      ∙ ap (λ place. at_place (read_block t.btt lane) place t) (place_lem t k a p g e h).1
      ∙ read_there,
  λ lba le. unfold invalid_lba in ground arith,
)
  where
    read_there :
        at_place (read_block t.btt lane) (some (k, a, p)) t ≡ (contents t.btt a t.ns.mem p, t)
    read_there =
        rw
          (
            read_block-contents t.btt (record { ns = t.ns; arena = a }) lane p (g.laid_out k a e)
                (g.consistent k a e) h idle,
            set-get_elem? t.btt.arenas k a e,
          )
          refl
