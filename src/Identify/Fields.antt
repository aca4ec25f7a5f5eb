-- ===== src/Identify/Fields.antt =====
-- The fields of src/lsdsk/adapters/hw/decode/ata_identify.py, read from words of 16 bits.
use lsdsk.Prelude.{
  ℕ, ◌+◌, ◌-◌, ◌*◌, ◌/◌, ◌%◌, ◌^◌, ◌≤◌, ◌<◌, ◌≡◌, ◌⊎◌, inl, inr, refl, Bool, true, false, not, ◌&&◌,
  ◌||◌, Option, none, some, List, [], ◌∷◌, leb, ◌==◌, arith, if◌then◌else◌, Bool-cases,
}
use lsdsk.Prelude.Dict.{lookup}
use lsdsk.Identify.{
  DiskKind, word, has_bit, largest_of, maximum_rate, negotiated_rate, lba48, lba28, count_or,
  sector_geometry, media_kind,
}
use lsdsk.Identify.Words.{AreWords, word-below}

-- A number that was read lies from `low` to `high`.
abbrev pub IsWithin : ℕ → ℕ → Option ℕ → Type 0
IsWithin low high none = Unit
IsWithin low high (some n) = (low ≤ n) × (n ≤ high)

-- One of the three rates of SATA, where one was read.
abbrev pub IsRate : Option ℕ → Type 0
IsRate none = Unit
IsRate (some rate) = (rate ≡ 15) ⊎ ((rate ≡ 30) ⊎ (rate ≡ 60))

abbrev pub IsMedia : DiskKind → Option ℕ → Type 0
IsMedia DiskKind.hdd (some rpm) = (1025 ≤ rpm) × (rpm ≤ 20000)
IsMedia DiskKind.hdd none = ⊥
IsMedia kind none = Unit
IsMedia kind (some rpm) = ⊥

pub media_kind-IsMedia : (words : List ℕ) → IsMedia (media_kind words).0 (media_kind words).1
unfolding media_kind
media_kind-IsMedia words = elim (Bool-cases (word words 217 == 1)) [
  | inl t ↦ rw t tt
  | inr f ↦ rw f (elim (Bool-cases (leb 1025 (word words 217) && leb (word words 217) 20000)) [
    | inl t ↦ rw t (ground (arith, t), ground (arith, t))
    | inr g ↦ rw g tt
  ])
]

-- Every choice of rates that a capability word makes.
rates_of :
    (a b c : Bool)
    → IsRate (
        largest_of (
          if a
          then 15 ∷ (if b then 30 ∷ (if c then 60 ∷ [] else []) else (if c then 60 ∷ [] else []))
          else (if b then 30 ∷ (if c then 60 ∷ [] else []) else (if c then 60 ∷ [] else []))))
rates_of true true true = inr (inr refl)
rates_of true true false = inr (inl refl)
rates_of true false true = inr (inr refl)
rates_of true false false = inl refl
rates_of false true true = inr (inr refl)
rates_of false true false = inr (inl refl)
rates_of false false true = inr (inr refl)
rates_of false false false = tt

pub maximum_rate-IsRate : (words : List ℕ) → IsRate (maximum_rate words)
unfolding maximum_rate
maximum_rate-IsRate words =
    let w = word words 76 in
    elim (Bool-cases (w == 0 || w == 0xffff)) [
      | inl t ↦ rw t tt
      | inr f ↦ rw f (rates_of (has_bit w 1) (has_bit w 2) (has_bit w 3))
    ]

lookup-IsRate :
    (a b c : Bool)
    → IsRate (if a then some 15 else if b then some 30 else if c then some 60 else none)
lookup-IsRate true b c = inl refl
lookup-IsRate false true c = inr (inl refl)
lookup-IsRate false false true = inr (inr refl)
lookup-IsRate false false false = tt

pub negotiated_rate-IsRate : (words : List ℕ) → IsRate (negotiated_rate words)
unfolding negotiated_rate lookup
negotiated_rate-IsRate words =
    let r = word words 77 / 2 % 8 in lookup-IsRate (1 == r) (2 == r) (3 == r)

-- A sector is 512 bytes, or the even number of bytes that the drive publishes for a larger one.
abbrev pub IsSectorSize : ℕ → Type 0
IsSectorSize size = (size ≡ 512) ⊎ ((514 ≤ size) × (size ≤ 4096))

count_or-IsWithin : (a b : ℕ) → a < 2 ^ 48 → b < 2 ^ 48 → IsWithin 1 (2 ^ 48 - 1) (count_or a b)
count_or-IsWithin a b h k = elim (Bool-cases (a == 0)) [
  | inr f ↦ rw f (ground (arith, f), ground (arith, h))
  | inl t ↦ rw t (elim (Bool-cases (b == 0)) [
    | inl u ↦ rw u tt
    | inr g ↦ rw g (ground (arith, g), ground (arith, k))
  ])
]

-- Of words of 16 bits whose top one is 0, the counts fit into 48 bits.
counts_within :
    (words : List ℕ)
    → AreWords words
    → word words 103 ≡ 0
    → (lba48 words < 2 ^ 48) × (lba28 words < 2 ^ 48)
unfolding lba48 lba28
counts_within words h top =
    let w = word-below words in
    (omega (arith, w 100 h, w 101 h, w 102 h, top), omega (arith, w 60 h, w 61 h))

pub sector_geometry_lem :
    (words : List ℕ)
    → AreWords words
    → word words 103 ≡ 0
    → IsWithin 1 (2 ^ 48 - 1) (sector_geometry words).count
      × IsSectorSize (sector_geometry words).size
unfolding sector_geometry
sector_geometry_lem words h top =
    let counts = counts_within words h top in
    let within = count_or-IsWithin (lba48 words) (lba28 words) counts.0 counts.1 in
    let logical = word words 117 + 2 ^ 16 * word words 118 in
    elim (Bool-cases (
      has_bit (word words 106) 14
      && not (has_bit (word words 106) 15)
      && has_bit (word words 106) 12)) [
        | inr f ↦ rw f (within, inl refl)
        | inl t ↦ rw t (elim (Bool-cases (leb 257 logical && leb logical 2048)) [
          | inl u ↦ rw u (within, inr (ground (arith, u), ground (arith, u)))
          | inr g ↦ rw g (tt, inl refl)
        ])
      ]
