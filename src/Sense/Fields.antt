-- ===== src/Sense/Fields.antt =====
-- What `describe_sense` of src/lsdsk/adapters/hw/decode/scsi_sense.py reads, and from where.
use lsdsk.Prelude.{
  ℕ, ◌+◌, ◌%◌, ◌≤◌, ◌<◌, ◌≡◌, ◌⊎◌, refl, sym, ap, String, none, some, List, [], ◌∷◌, length, true,
  false, get_elem?, get_elem?-some, leb, leb→le, leb-false, Bool-cases, Option-cases, inl, inr,
  arith, Elem, ◌==◌, ==_iff,
}
use lsdsk.Prelude.Dict.{lookup, number_key}
use lsdsk.Sense.{
  Layout, fixed_format, descriptor_format, key_at, asc_at, layout_of, sense_keys, Sense,
  or_reserved, sense_of, Described, described, nothing, described_from, describe_at, describe_sense,
}

-- The response codes of the two layouts, under the bit that says whether the error is this command's.
abbrev pub IsFixed : ℕ → Type 0
IsFixed code = (code % 128 ≡ 0x70) ⊎ (code % 128 ≡ 0x71)

abbrev pub IsDescriptor : ℕ → Type 0
IsDescriptor code = (code % 128 ≡ 0x72) ⊎ (code % 128 ≡ 0x73)

-- The name of a sense key: the table's, or "RESERVED" for one that it does not have.
abbrev pub IsNamed : ℕ → String → Type 0
IsNamed key name =
    Elem (key, name) sense_keys
    ⊎ ((name ≡ "RESERVED") × ((n : String) → Elem (key, n) sense_keys → ⊥))

-- A sense that is in the bytes: its key the low half of byte `key_byte`, its ASC byte `asc_byte`, and
-- its ASCQ the one after.
pub record IsIn (bytes : List ℕ) (key_byte asc_byte : ℕ) (s : Sense) : Type 0 where
  pub whole : ℕ
  pub whole_is : get_elem? bytes key_byte ≡ some whole
  pub key : s.key ≡ whole % 16
  pub name : IsNamed s.key s.name
  pub asc : get_elem? bytes asc_byte ≡ some s.asc
  pub ascq : get_elem? bytes (asc_byte + 1) ≡ some s.ascq

-- What the bytes of sense data say: nothing where there are none, where the response code is none of
-- a layout, or where they are fewer than the 14 or the 4 of their layout; and else what stands in bytes
-- 2, 12 and 13 of the fixed layout, or in bytes 1, 2 and 3 of the descriptor one.
pub data IsSensed : List ℕ → Described → Type 0 where
  absent : IsSensed [] nothing
  foreign :
      {code : ℕ} {rest : List ℕ}
      → (IsFixed code → ⊥)
      → (IsDescriptor code → ⊥)
      → IsSensed (code ∷ rest) nothing
  fixed_cut :
      {code : ℕ} {rest : List ℕ}
      → IsFixed code
      → length (code ∷ rest) < 14
      → IsSensed (code ∷ rest) nothing
  descriptor_cut :
      {code : ℕ} {rest : List ℕ}
      → IsDescriptor code
      → length (code ∷ rest) < 4
      → IsSensed (code ∷ rest) nothing
  fixed :
      {code : ℕ} {rest : List ℕ} {s : Sense}
      → IsFixed code
      → 14 ≤ length (code ∷ rest)
      → IsIn (code ∷ rest) 2 12 s
      → IsSensed (code ∷ rest) (described s)
  descriptor :
      {code : ℕ} {rest : List ℕ} {s : Sense}
      → IsDescriptor code
      → 4 ≤ length (code ∷ rest)
      → IsIn (code ∷ rest) 1 2 s
      → IsSensed (code ∷ rest) (described s)

lookup-Elem :
    (k : ℕ) (v : String) (d : List (ℕ × String)) → lookup number_key k d ≡ some v → Elem (k, v) d
unfolding lookup
lookup-Elem k v [] = λ h. absurd cc
lookup-Elem k v ((j, w) ∷ d) = elim (Bool-cases (j == k)) [
  | inr f ↦ rw f (λ h. Elem.there (lookup-Elem k v d h))
  | inl t ↦
      rw t
        (λ h. let e : j ≡ k = ground (arith, t) in let f : w ≡ v = cc in Elem.here (rw (e, f) refl))
]

lookup-none :
    (k : ℕ) (d : List (ℕ × String))
    → lookup number_key k d ≡ none
    → (v : String) → Elem (k, v) d
    → ⊥
unfolding lookup
lookup-none k [] h v m = elim m [ ]
lookup-none k ((j, w) ∷ d) h v (Elem.here e) =
    let same : (j == k) ≡ true = (==_iff j k).1 (sym (ap (λ q. q.0) e)) in
    absurd (ground (arith, h, same))
lookup-none k ((j, w) ∷ d) h v (Elem.there m) = elim (Bool-cases (j == k)) [
  | inl t ↦ absurd (ground (arith, h, t))
  | inr f ↦ lookup-none k d (ground (arith, h, f)) v m
]

name-IsNamed : (key : ℕ) → IsNamed key (or_reserved (lookup number_key key sense_keys))
name-IsNamed key = elim (Option-cases (lookup number_key key sense_keys)) [
  | inl e ↦ rw e (inr (refl, lookup-none key sense_keys e))
  | inr (n, e) ↦ rw e (inl (lookup-Elem key n sense_keys e))
]

-- The layout of a response code.
layout_of_cases :
    (code : ℕ)
    → ((IsFixed code) × (layout_of (code % 128) ≡ some fixed_format))
      ⊎ ((IsDescriptor code) × (layout_of (code % 128) ≡ some descriptor_format))
      ⊎ ((IsFixed code → ⊥) × (IsDescriptor code → ⊥) × (layout_of (code % 128) ≡ none))
unfolding layout_of
layout_of_cases code =
    let c = code % 128 in
    elim (Bool-cases (0x70 == c)) [
      | inl t ↦ inl (inl (ground (arith, t)), rw t refl)
      | inr a ↦ elim (Bool-cases (0x71 == c)) [
        | inl t ↦ inl (inr (ground (arith, t)), rw (a, t) refl)
        | inr b ↦ elim (Bool-cases (0x72 == c)) [
          | inl t ↦ inr (inl (inl (ground (arith, t)), rw (a, b, t) refl))
          | inr d ↦ elim (Bool-cases (0x73 == c)) [
            | inl t ↦ inr (inl (inr (ground (arith, t)), rw (a, b, d, t) refl))
            | inr e ↦ inr (
                inr (
                  (λ f. elim f [ inl x ↦ ground (arith, a, x) | inr x ↦ ground (arith, b, x) ]),
                  (λ f. elim f [ inl x ↦ ground (arith, d, x) | inr x ↦ ground (arith, e, x) ]),
                  rw (a, b, d, e) refl,
                ))
          ]
        ]
      ]
    ]

-- With as many bytes as the layout needs, the description is what is in them.
full :
    (bytes : List ℕ) (layout : Layout)
    → key_at layout ≤ asc_at layout
    → asc_at layout + 1 < length bytes
    → (s : Sense) × (describe_at (some layout) bytes ≡ described s)
      × IsIn bytes (key_at layout) (asc_at layout) s
unfolding describe_at described_from
full bytes layout places long =
    let (key, k) = get_elem?-some bytes (key_at layout) (omega arith) in
    let (asc, a) = get_elem?-some bytes (asc_at layout) (omega arith) in
    let (ascq, q) = get_elem?-some bytes (asc_at layout + 1) long in
    let n : leb (length bytes) (asc_at layout + 1) ≡ false = ground arith in
    (
      sense_of key asc ascq,
      rw (n, k, a, q) refl,
      record {
        whole = key;
        whole_is = k;
        key = refl;
        name = name-IsNamed (key % 16);
        asc = a;
        ascq = q;
      },
    )

cut :
    (bytes : List ℕ) (layout : Layout)
    → length bytes ≤ asc_at layout + 1
    → describe_at (some layout) bytes ≡ nothing
unfolding describe_at
cut bytes layout short =
    let y : leb (length bytes) (asc_at layout + 1) ≡ true = ground arith in rw y refl

fixed-IsSensed :
    (code : ℕ) (rest : List ℕ)
    → IsFixed code
    → IsSensed (code ∷ rest) (describe_at (some fixed_format) (code ∷ rest))
fixed-IsSensed code rest f = elim (Bool-cases (leb (length (code ∷ rest)) 13)) [
  | inl y ↦
      let short = leb→le _ _ y in
      rw (cut (code ∷ rest) fixed_format short) (IsSensed.fixed_cut f (omega arith))
  | inr n ↦
      let long = leb-false _ _ n in
      let (s, e, i) = full (code ∷ rest) fixed_format (omega arith) long in
      rw e (IsSensed.fixed f (omega arith) i)
]

descriptor-IsSensed :
    (code : ℕ) (rest : List ℕ)
    → IsDescriptor code
    → IsSensed (code ∷ rest) (describe_at (some descriptor_format) (code ∷ rest))
descriptor-IsSensed code rest f = elim (Bool-cases (leb (length (code ∷ rest)) 3)) [
  | inl y ↦
      let short = leb→le _ _ y in
      rw (cut (code ∷ rest) descriptor_format short) (IsSensed.descriptor_cut f (omega arith))
  | inr n ↦
      let long = leb-false _ _ n in
      let (s, e, i) = full (code ∷ rest) descriptor_format (omega arith) long in
      rw e (IsSensed.descriptor f (omega arith) i)
]

-- Whatever the bytes, the description is what they say: nothing where there are none, where the
-- response code names no layout, or where they are fewer than the 14 bytes of the fixed layout or the 4
-- of the descriptor one; else the low half of byte 2 or 1 with its name, or "RESERVED" for a key that
-- has none, and bytes 12 and 13 or 2 and 3. No byte past the end is asked for.
pub describe_sense-IsSensed : (bytes : List ℕ) → IsSensed bytes (describe_sense bytes)
unfolding describe_sense describe_at
describe_sense-IsSensed [] = absent
describe_sense-IsSensed (code ∷ rest) = elim (layout_of_cases code) [
  | inl (f, e) ↦ rw e (fixed-IsSensed code rest f)
  | inr (inl (d, e)) ↦ rw e (descriptor-IsSensed code rest d)
  | inr (inr (a, b, e)) ↦ rw e (foreign a b)
]
