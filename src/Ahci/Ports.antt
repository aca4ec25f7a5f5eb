-- ===== src/Ahci/Ports.antt =====
-- The ports that src/lsdsk/adapters/hw/decode/ahci.py counts, against the bits of the bitmap.
use native.Mathlib.Nat.{div-div-eq-div-mul, pow-succ', div-one, zero-div}
use mathlib.Core.Path.{subst}
use lsdsk.Prelude.{
  ◌&&◌, ℕ, zero, suc, ◌+◌, ◌*◌, ◌/◌, ◌%◌, ◌^◌, ◌≤◌, ◌<◌, ◌≡◌, ◌↔◌, ◌≢◌, refl, sym, ap, ◌∙◌, false,
  none, some, ltb, leb, ◌==◌, Bool-cases, inl, inr, arith, if◌then◌else◌,
}
use lsdsk.Ahci.{ones, all_ones_register, implemented_ports, decode_capabilities}

-- The bit of a number at a place, and how many of the lowest ones are set.
abbrev pub bit : ℕ → ℕ → ℕ
bit n place = n / 2 ^ place % 2

unfoldable pub bits_set : ℕ → ℕ → ℕ
bits_set n zero = 0
bits_set n (suc width) = bits_set n width + bit n width

bit-halve : (n place : ℕ) → bit n (suc place) ≡ bit (n / 2) place
bit-halve n place = rw (div-div-eq-div-mul, pow-succ') refl

bits_set-halve : (n width : ℕ) → bits_set n (suc width) ≡ n % 2 + bits_set (n / 2) width
unfolding bits_set
bits_set-halve n zero = rw div-one (omega arith)
bits_set-halve n (suc width) = omega (arith, bits_set-halve n width, bit-halve n width)

bits_set-zero : (width : ℕ) → bits_set 0 width ≡ 0
unfolding bits_set
bits_set-zero zero = refl
bits_set-zero (suc width) = rw (bits_set-zero width, zero-div (2 ^ width)) refl

ones-zero : (fuel : ℕ) → ones fuel 0 ≡ 0
unfolding ones
ones-zero zero = refl
ones-zero (suc fuel) = refl

ones-suc : (fuel n : ℕ) → (n == 0) ≡ false → ones (suc fuel) n ≡ n % 2 + ones fuel (n / 2)
unfolding ones
ones-suc fuel n h = rw (h, ones) refl

ones-bits_set-zero : (fuel width n : ℕ) → n ≡ 0 → ones fuel n ≡ bits_set n width
ones-bits_set-zero fuel width n e =
    subst (λ x. ones fuel x ≡ bits_set x width) (sym e) (ones-zero fuel ∙ sym (bits_set-zero width))

ones_lem : (fuel width n : ℕ) → n ≤ fuel → n < 2 ^ width → ones fuel n ≡ bits_set n width
ones_lem fuel zero n h k = ones-bits_set-zero fuel zero n (omega arith)
ones_lem zero (suc width) n h k = ones-bits_set-zero zero (suc width) n (omega arith)
ones_lem (suc fuel) (suc width) n h k = elim (Bool-cases (n == 0)) [
  | inl z ↦ ones-bits_set-zero (suc fuel) (suc width) n (ground arith)
  | inr p ↦
      ones-suc fuel n p
      ∙ ap (λ x. n % 2 + x) (ones_lem fuel width (n / 2) (ground (arith, p)) halved)
      ∙ sym (bits_set-halve n width)
]
  where
    halved : n / 2 < 2 ^ width
    halved = let l : n < 2 * 2 ^ width = subst (λ x. n < x) (pow-succ' 2 width) k in omega arith

counted_iff :
    (capability c declared count : ℕ)
    → ((if capability == all_ones_register
          then none
          else if ltb 0 c && leb c declared
          then some c
          else none)
        ≡ some count)
      ↔ ((capability ≢ all_ones_register) × (count ≡ c) × (1 ≤ count) × (count ≤ declared))
counted_iff capability c declared count = ground arith

-- A controller declares from 1 to 32 ports. A count of its ports is given exactly where the capability
-- register is not all ones and from one bit of the bitmap to as many as there are declared ports are
-- set, and it is the number of those bits.
pub decode_capabilities_lem :
    (capability bitmap count : ℕ)
    → bitmap < 2 ^ 32
    → (1 ≤ (decode_capabilities capability bitmap).ports_declared)
      × ((decode_capabilities capability bitmap).ports_declared ≤ 32)
      × (((decode_capabilities capability bitmap).ports_implemented ≡ some count) ↔ (
          (capability ≢ all_ones_register)
          × (count ≡ bits_set bitmap 32)
          × (1 ≤ count)
          × (count ≤ (decode_capabilities capability bitmap).ports_declared)))
unfolding decode_capabilities implemented_ports
decode_capabilities_lem capability bitmap count h = (
  omega arith,
  omega arith,
  rw (ones_lem bitmap 32 bitmap (omega arith) h)
      (counted_iff capability (bits_set bitmap 32) (capability % 32 + 1) count),
)
