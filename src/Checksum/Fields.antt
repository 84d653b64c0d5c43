-- ===== src/Checksum/Fields.antt =====
-- Fields of a checksummed structure: writing one changes its own words and no other.
use nvml.Base.{
  ℕ, zero, suc, ◌+◌, ◌-◌, ◌*◌, ◌/◌, ◌%◌, ◌^◌, ◌<◌, ◌≤◌, ◌≡◌, refl, sym, ap, List, [], ◌∷◌, ◌++◌,
  length, get_or, set, take, drop, arith, ◌∙◌, inl, inr, get_or-append_left, get_or-append_right,
  get_or-take, get_or-drop, length-take, length-drop, length-append,
}
use nvml.Base.Memory.{Apart, Outside, word_of, word, le32, le64}
use nvml.Checksum.{words, put}
use nvml.Checksum.Sums.{SameBut}

put-step :
    (a : ℕ) (bs : List ℕ) (off : ℕ) (new : List ℕ) → put (a ∷ bs) (suc off) new ≡ a ∷ put bs off new
unfolding put
put-step a bs off new =
    let e : suc off + length new ≡ suc (off + length new) = omega arith in
    ap (λ t. a ∷ (take off bs ++ (new ++ drop t (a ∷ bs)))) e

put_four :
    (a b c d : ℕ) (bs : List ℕ) (off : ℕ) (new : List ℕ)
    → put (a ∷ b ∷ c ∷ d ∷ bs) (suc (suc (suc (suc off)))) new ≡ a ∷ b ∷ c ∷ d ∷ put bs off new
put_four a b c d bs off new =
    put-step a (b ∷ c ∷ d ∷ bs) (suc (suc (suc off))) new
    ∙ ap (λ t. a ∷ t)
        (put-step b (c ∷ d ∷ bs) (suc (suc off)) new
          ∙ ap (λ t. b ∷ t)
              (put-step c (d ∷ bs) (suc off) new ∙ ap (λ t. c ∷ t) (put-step d bs off new)))

pub length-words : (bs : List ℕ) → length (words bs) ≡ length bs / 4
unfolding words
length-words (a ∷ b ∷ c ∷ d ∷ bs) = omega (arith, length-words bs)
length-words [] = omega arith
length-words (a ∷ []) = omega arith
length-words (a ∷ b ∷ []) = omega arith
length-words (a ∷ b ∷ c ∷ []) = omega arith

SameBut-self : (csump p : ℕ) (ws : List ℕ) → SameBut csump p ws ws
SameBut-self csump p [] = tt
SameBut-self csump p (w ∷ ws) = (λ n m. refl, SameBut-self csump (p + 1) ws)

SameBut-first :
    (csump p a b c d e f g h : ℕ) (bs : List ℕ) (v : ℕ)
    → csump ≡ p
    → SameBut csump p
        (words (put (a ∷ b ∷ c ∷ d ∷ e ∷ f ∷ g ∷ h ∷ bs) 0 (le64 v)))
        (words (a ∷ b ∷ c ∷ d ∷ e ∷ f ∷ g ∷ h ∷ bs))
unfolding words put
SameBut-first csump p a b c d e f g h bs v eq = (
  λ n m. absurd (n (omega arith)),
  (λ n m. absurd (m (omega arith)), SameBut-self csump (p + 1 + 1) (words bs)),
)

SameBut-later :
    (csump p a b c d : ℕ) (bs : List ℕ) (off : ℕ) (new : List ℕ)
    → SameBut csump (p + 1) (words (put bs off new)) (words bs)
    → SameBut csump p
        (words (put (a ∷ b ∷ c ∷ d ∷ bs) (suc (suc (suc (suc off)))) new))
        (words (a ∷ b ∷ c ∷ d ∷ bs))
unfolding words
SameBut-later csump p a b c d bs off new h = rw (put_four a b c d bs off new) (λ n m. refl, h)

-- A write of two words changes those two at most.
pub words-put-SameBut :
    (csump p : ℕ) (bs : List ℕ) (off v : ℕ)
    → off % 4 ≡ 0
    → off + 8 ≤ length bs
    → csump * 4 ≡ p * 4 + off
    → SameBut csump p (words (put bs off (le64 v))) (words bs)
words-put-SameBut csump p (a ∷ b ∷ c ∷ d ∷ e ∷ f ∷ g ∷ h ∷ bs) zero v m le eq =
    SameBut-first csump p a b c d e f g h bs v (omega arith)
words-put-SameBut csump p (a ∷ b ∷ c ∷ d ∷ bs) (suc (suc (suc (suc off)))) v m le eq =
    SameBut-later csump p a b c d bs off (le64 v)
      (words-put-SameBut csump (p + 1) bs off v (omega arith) (omega arith) (omega arith))
words-put-SameBut csump p _ _ v m le eq = absurd (omega arith)

words-put_first :
    (a b c d : ℕ) (bs : List ℕ) (v : ℕ)
    → v < 2 ^ 32
    → words (put (a ∷ b ∷ c ∷ d ∷ bs) 0 (le32 v)) ≡ v ∷ words bs
unfolding words put
words-put_first a b c d bs v h = ap (λ t. t ∷ words bs) (omega arith)

words-put_later :
    (a b c d : ℕ) (bs : List ℕ) (off : ℕ) (new : List ℕ)
    → words (put (a ∷ b ∷ c ∷ d ∷ bs) (suc (suc (suc (suc off)))) new)
      ≡ word_of a b c d ∷ words (put bs off new)
unfolding words
words-put_later a b c d bs off new = rw (put_four a b c d bs off new)

set-words :
    (a b c d : ℕ) (bs : List ℕ) (j j' v : ℕ)
    → j ≡ suc j'
    → set (words (a ∷ b ∷ c ∷ d ∷ bs)) j v ≡ word_of a b c d ∷ set (words bs) j' v
unfolding words
set-words a b c d bs j j' v e = rw e

set-words_zero :
    (a b c d : ℕ) (bs : List ℕ) (j v : ℕ)
    → j ≡ 0
    → set (words (a ∷ b ∷ c ∷ d ∷ bs)) j v ≡ v ∷ words bs
unfolding words
set-words_zero a b c d bs j v e = rw e

-- A write of one word changes that word.
pub words-put :
    (bs : List ℕ) (off j v : ℕ)
    → off ≡ 4 * j
    → off + 4 ≤ length bs
    → v < 2 ^ 32
    → words (put bs off (le32 v)) ≡ set (words bs) j v
words-put (a ∷ b ∷ c ∷ d ∷ bs) zero j v e le h =
    words-put_first a b c d bs v h ∙ sym (set-words_zero a b c d bs j v (omega arith))
words-put (a ∷ b ∷ c ∷ d ∷ bs) (suc (suc (suc (suc off)))) j v e le h =
    words-put_later a b c d bs off (le32 v)
    ∙ ap (λ t. word_of a b c d ∷ t) (words-put bs off (j - 1) v (omega arith) (omega arith) h)
    ∙ sym (set-words a b c d bs j (j - 1) v (omega arith))
words-put _ _ j v e le h = absurd (omega arith)

-- Inside the range that is written stand the new bytes, and outside it the old ones.
pub get_or-put_inside :
    (bs : List ℕ) (off : ℕ) (new : List ℕ) (i k : ℕ)
    → k ≡ off + i
    → i < length new
    → off ≤ length bs
    → get_or (put bs off new) k 0 ≡ get_or new i 0
unfolding put
get_or-put_inside bs off new i k e h le =
    get_or-append_right (take off bs) (new ++ drop (off + length new) bs) k i 0
      (omega (arith, length-take off bs))
    ∙ get_or-append_left new (drop (off + length new) bs) i 0 h

pub get_or-put-Outside :
    (bs : List ℕ) (off : ℕ) (new : List ℕ) (k : ℕ)
    → Outside off (length new) k
    → off + length new ≤ length bs
    → get_or (put bs off new) k 0 ≡ get_or bs k 0
unfolding put
get_or-put-Outside bs off new k (inl before) le =
    get_or-append_left (take off bs) (new ++ drop (off + length new) bs) k 0
      (omega (arith, length-take off bs))
    ∙ get_or-take off bs k 0 before
get_or-put-Outside bs off new k (inr after) le =
    get_or-append_right (take off bs) (new ++ drop (off + length new) bs) k (k - off) 0
      (omega (arith, length-take off bs))
    ∙ get_or-append_right new (drop (off + length new) bs) (k - off) (k - off - length new) 0
        (omega arith)
    ∙ get_or-drop (off + length new) bs (k - off - length new) k 0 (omega arith)

pub length-put :
    (bs : List ℕ) (off : ℕ) (new : List ℕ)
    → off + length new ≤ length bs
    → length (put bs off new) ≡ length bs
unfolding put
length-put bs off new h = omega (
  arith,
  length-append (take off bs) (new ++ drop (off + length new) bs),
  length-append new (drop (off + length new) bs),
  length-take off bs,
  length-drop (off + length new) bs,
)

-- Words that lie inside or outside of what was written.
pub word-put_inside :
    (bs : List ℕ) (off : ℕ) (new : List ℕ) (i k : ℕ)
    → k ≡ off + i
    → i + 4 ≤ length new
    → off ≤ length bs
    → word (put bs off new) k ≡ word new i
word-put_inside bs off new i k e h le = omega (
  arith,
  get_or-put_inside bs off new i k e (omega arith) le,
  get_or-put_inside bs off new (i + 1) (k + 1) (omega arith) (omega arith) le,
  get_or-put_inside bs off new (i + 2) (k + 2) (omega arith) (omega arith) le,
  get_or-put_inside bs off new (i + 3) (k + 3) (omega arith) (omega arith) le,
)

pub word-put_outside :
    (bs : List ℕ) (off : ℕ) (new : List ℕ) (k : ℕ)
    → Apart off (length new) k 4
    → off + length new ≤ length bs
    → word (put bs off new) k ≡ word bs k
word-put_outside bs off new k h le = omega (
  arith,
  get_or-put-Outside bs off new k (omega arith) le,
  get_or-put-Outside bs off new (k + 1) (omega arith) le,
  get_or-put-Outside bs off new (k + 2) (omega arith) le,
  get_or-put-Outside bs off new (k + 3) (omega arith) le,
)

word-skip :
    (a b c d : ℕ) (bs : List ℕ) (k i : ℕ) → k ≡ 4 + i → word (a ∷ b ∷ c ∷ d ∷ bs) k ≡ word bs i
word-skip a b c d bs k i e = omega (
  arith,
  byte k i e,
  byte (k + 1) (i + 1) (omega arith),
  byte (k + 2) (i + 2) (omega arith),
  byte (k + 3) (i + 3) (omega arith),
)
  where
    byte : (n m : ℕ) → n ≡ 4 + m → get_or (a ∷ b ∷ c ∷ d ∷ bs) n 0 ≡ get_or bs m 0
    byte n m h = get_or-append_right (a ∷ b ∷ c ∷ d ∷ []) bs n m 0 (omega arith)

-- The word numbered `j` stands at byte `4 * j`.
pub get_or-words :
    (bs : List ℕ) (j k : ℕ) → k ≡ 4 * j → k + 4 ≤ length bs → get_or (words bs) j 0 ≡ word bs k
unfolding words
get_or-words (a ∷ b ∷ c ∷ d ∷ bs) zero k e h = let e' : k ≡ 0 = omega arith in rw e'
get_or-words (a ∷ b ∷ c ∷ d ∷ bs) (suc j) k e h =
    get_or-words bs j (k - 4) (omega arith) (omega arith)
    ∙ sym (word-skip a b c d bs k (k - 4) (omega arith))
get_or-words _ j k e h = absurd (omega arith)
