-- ===== src/Identify/Words.antt =====
-- The words of an IDENTIFY page of src/lsdsk/adapters/hw/decode/ata_identify.py.
use lsdsk.Prelude.{ℕ, zero, suc, ◌*◌, ◌<◌, ◌≡◌, refl, List, [], ◌∷◌, length, take, All, arith}
use lsdsk.Identify.{words_of, word}

abbrev pub AreBytes : List ℕ → Type 0
AreBytes bytes = All (λ b. b < 256) bytes

abbrev pub AreWords : List ℕ → Type 0
AreWords words = All (λ w. w < 65536) words

pub AreBytes-take : (n : ℕ) (bytes : List ℕ) → AreBytes bytes → AreBytes (take n bytes)
AreBytes-take zero bytes h = tt
AreBytes-take (suc n) [] h = tt
AreBytes-take (suc n) (b ∷ bytes) h = (h.0, AreBytes-take n bytes h.1)

pub words_of-AreWords : (bytes : List ℕ) → AreBytes bytes → AreWords (words_of bytes)
unfolding words_of
words_of-AreWords [] h = tt
words_of-AreWords (low ∷ []) h = tt
words_of-AreWords (low ∷ high ∷ bytes) h =
    (omega (arith, h.0, h.1.0), words_of-AreWords bytes h.1.1)

-- Every word of the page is there.
pub length-words_of : (n : ℕ) (bytes : List ℕ) → length bytes ≡ n * 2 → length (words_of bytes) ≡ n
unfolding words_of
length-words_of zero [] h = refl
length-words_of (suc n) [] h = absurd (omega (arith, h))
length-words_of n (b ∷ []) h = absurd (omega (arith, h))
length-words_of zero (low ∷ high ∷ bytes) h = absurd (omega (arith, h))
length-words_of (suc n) (low ∷ high ∷ bytes) h =
    omega (arith, length-words_of n bytes (omega (arith, h)))

pub word-below : (words : List ℕ) (i : ℕ) → AreWords words → word words i < 65536
word-below [] i h = omega arith
word-below (w ∷ words) zero h = h.0
word-below (w ∷ words) (suc i) h = word-below words i h.1
