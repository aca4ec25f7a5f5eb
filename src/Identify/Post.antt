-- ===== src/Identify/Post.antt =====
-- What `decode_identify` of src/lsdsk/adapters/hw/decode/ata_identify.py lets through.
use lsdsk.Prelude.{
  ℕ, ◌-◌, ◌*◌, ◌^◌, ◌≤◌, ◌<◌, ◌≡◌, ◌⊎◌, inl, inr, refl, Bool, true, false, not, ◌||◌, Option, none,
  some, List, length, take, ltb, ◌==◌, arith, if◌then◌else◌, Bool-cases, Option-cases,
}
use lsdsk.Identify.{
  AtaIdentity, short_page, unusable_page, wide_count, no_identity, not_ascii, Identified,
  identified, refused, size_bytes, words_of, word, all_bytes, bad_word, implausible,
  identity_of_words, names_something, identify_words, decode_identify, sector_geometry,
}
use lsdsk.Identify.Words.{AreBytes, AreWords, AreBytes-take, words_of-AreWords}
use lsdsk.Identify.Fields.{
  IsWithin, IsRate, IsMedia, IsSectorSize, media_kind-IsMedia, maximum_rate-IsRate,
  negotiated_rate-IsRate, sector_geometry_lem,
}

-- What a drive can say about itself.
pub record IsPlausible (i : AtaIdentity) : Type 0 where
  pub count : IsWithin 1 (2 ^ 48 - 1) i.sectors
  pub sector : IsSectorSize i.sector_size
  pub capacity : IsWithin 512 (2 ^ 60 - 1) (size_bytes i)
  pub media : IsMedia i.kind i.rotation_rpm
  pub negotiated : IsRate i.negotiated_gbps
  pub maximum : IsRate i.max_gbps

-- Each answer of the decoder, and what it says of the page.
abbrev pub Answers : List ℕ → Identified → Type 0
Answers blob (identified i) =
    IsPlausible i
    × (512 ≤ length blob)
    × (bad_word (words_of (take 512 blob)) ≡ none)
    × (names_something (words_of (take 512 blob)) ≡ true)
Answers blob (refused short_page) = length blob < 512
Answers blob (refused unusable_page) =
    (all_bytes 0 (take 512 blob) ≡ true) ⊎ (all_bytes 0xff (take 512 blob) ≡ true)
Answers blob (refused (not_ascii index)) = bad_word (words_of (take 512 blob)) ≡ some index
Answers blob (refused wide_count) =
    (1 ≤ word (words_of (take 512 blob)) 103) ⊎ (0x1000 ≤ word (words_of (take 512 blob)) 61)
Answers blob (refused no_identity) = names_something (words_of (take 512 blob)) ≡ false

product_within :
    (n size : ℕ)
    → 1 ≤ n
    → n ≤ 2 ^ 48 - 1
    → IsSectorSize size
    → (512 ≤ n * size) × (n * size ≤ 2 ^ 60 - 1)
product_within n size a b (inl e) = rw e (omega arith, omega arith)
product_within n size a b (inr (low, high)) = (grind arith, grind arith)

capacity-IsWithin :
    (count : Option ℕ) (size : ℕ) (i : AtaIdentity)
    → i.sectors ≡ count
    → i.sector_size ≡ size
    → IsWithin 1 (2 ^ 48 - 1) count
    → IsSectorSize size
    → IsWithin 512 (2 ^ 60 - 1) (size_bytes i)
unfolding size_bytes
capacity-IsWithin none size i e f h k = rw e tt
capacity-IsWithin (some n) size i e f h k = rw (e, f) (product_within n size h.0 h.1 k)

IsPlausible-words :
    (words : List ℕ) → AreWords words → word words 103 ≡ 0 → IsPlausible (identity_of_words words)
unfolding identity_of_words
IsPlausible-words words h top =
    let (count, sector) = sector_geometry_lem words h top in
    record {
      count = count;
      sector = sector;
      capacity =
          capacity-IsWithin (sector_geometry words).count (sector_geometry words).size
            (identity_of_words words) refl refl count sector;
      media = media_kind-IsMedia words;
      negotiated = negotiated_rate-IsRate words;
      maximum = maximum_rate-IsRate words;
    }

either : (a b : Bool) → (a || b) ≡ true → (a ≡ true) ⊎ (b ≡ true)
either true b h = inl refl
either false b h = inr h

neither : (a b : Bool) → (a || b) ≡ false → (a ≡ false) × (b ≡ false)
neither true b h = absurd cc
neither false b h = (refl, h)

nonzero_of : (n : ℕ) → not (n == 0) ≡ true → 1 ≤ n
nonzero_of n h = ground (arith, h)

zero_of : (n : ℕ) → not (n == 0) ≡ false → n ≡ 0
zero_of n h = ground (arith, h)

above_of : (n : ℕ) → ltb 0x0fff n ≡ true → 0x1000 ≤ n
above_of n h = ground (arith, h)

module _ (blob : List ℕ) (long : 512 ≤ length blob) where
  abbrev page_words : List ℕ
  page_words = words_of (take 512 blob)

  named_case :
      bad_word page_words ≡ none
      → word page_words 103 ≡ 0
      → AreWords page_words
      → Answers blob (
          if names_something page_words
          then identified (identity_of_words page_words)
          else refused no_identity)
  named_case ascii top h = elim (Bool-cases (names_something page_words)) [
    | inr f ↦ rw f f
    | inl t ↦ rw t (IsPlausible-words page_words h top, long, ascii, t)
  ]

  words_case : AreWords page_words → Answers blob (identify_words page_words)
  unfolding identify_words implausible
  words_case h =
      let wide = not (word page_words 103 == 0) || ltb 0x0fff (word page_words 61) in
      elim (Option-cases (bad_word page_words)) [
        | inr (index, e) ↦ rw e e
        | inl e ↦ rw e (elim (Bool-cases wide) [
          | inl t ↦
              rw t
                (elim (either (not (word page_words 103 == 0)) (ltb 0x0fff (word page_words 61))
                  t) [
                    | inl a ↦ inl (nonzero_of (word page_words 103) a)
                    | inr b ↦ inr (above_of (word page_words 61) b)
                  ])
          | inr f ↦ rw f (
              named_case e
                (zero_of (word page_words 103)
                  (neither (not (word page_words 103 == 0)) (ltb 0x0fff (word page_words 61)) f).0)
                h)
        ])
      ]

-- Of a buffer of bytes `decode_identify` lets through an identity that a drive can have: less than 2 ^
-- 48 sectors of 512 bytes or of 514 to 4,096, so that no capacity reaches 2 ^ 60 bytes, a rotation rate
-- of 1,025 to 20,000 with a rotating medium alone, and no rate but the three of SATA. Its page is long
-- enough, its text words are ASCII and it names something. Each refusal is the page's own: too short,
-- all zeros or all ones, the first text word that is not ASCII, a count wider than its field, or
-- nothing named.
pub decode_identify-Answers : (blob : List ℕ) → AreBytes blob → Answers blob (decode_identify blob)
unfolding decode_identify
decode_identify-Answers blob h = elim (Bool-cases (ltb (length blob) 512)) [
  | inl t ↦ rw t (ground (arith, t))
  | inr f ↦
      let page = take 512 blob in
      rw f (elim (Bool-cases (all_bytes 0 page || all_bytes 0xff page)) [
        | inl t ↦ rw t (either (all_bytes 0 page) (all_bytes 0xff page) t)
        | inr g ↦ rw g (
            words_case blob (ground (arith, f)) (words_of-AreWords page (AreBytes-take 512 blob h)))
      ])
]
