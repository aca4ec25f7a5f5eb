-- ===== src/Nvme/Log.antt =====
-- What `decode_smart_log` of src/lsdsk/adapters/hw/decode/nvme.py answers with.
use lsdsk.Prelude.{
  ℕ, ◌≤◌, ◌<◌, ◌≡◌, ◌⊎◌, inl, inr, true, false, not, ◌&&◌, Option, none, some, List, ◌==◌, length,
  take, get_elem?, any, arith, Bool-cases,
}
use lsdsk.Prelude.Int.{ℤ, pos, negsuc, ◌-ℤ◌, ◌≤ℤ◌, leb_ℤ}
use lsdsk.Models.{Health, unread}
use lsdsk.AtaSmart.Table.{is_floating}
use lsdsk.AtaSmart.Health.{plausible_celsius}
use lsdsk.Nvme.{
  NvmeIdentity, Answer, answered, failed, short_page, floating_page, implausible_field, past_end,
  not_ascii_field, kelvin_to_celsius, warning_of, critical_of,
}

-- A temperature that was read lies where a drive's can.
abbrev pub IsCelsius : Option ℤ → Type 0
IsCelsius none = Unit
IsCelsius (some t) = (negsuc 59 ≤ℤ t) × (t ≤ℤ pos 200)

plausible_celsius-IsCelsius : (t : ℤ) → IsCelsius (plausible_celsius t)
unfolding plausible_celsius
plausible_celsius-IsCelsius t = elim (Bool-cases (leb_ℤ (negsuc 59) t && leb_ℤ t (pos 200))) [
  | inl h ↦ rw h (ground (arith, h), ground (arith, h))
  | inr h ↦ rw h tt
]

pub kelvin_to_celsius-IsCelsius : (kelvin : ℕ) → IsCelsius (kelvin_to_celsius kelvin)
unfolding kelvin_to_celsius
kelvin_to_celsius-IsCelsius kelvin = elim (Bool-cases (kelvin == 0)) [
  | inl t ↦ rw t tt
  | inr f ↦ rw f (plausible_celsius-IsCelsius (pos kelvin -ℤ pos 273))
]

-- A log that was read: its verdict, its spare and its wear are bytes of the page.
pub record IsLog (blob : List ℕ) (identity : Option NvmeIdentity) (h : Health) : Type 0 where
  pub warnings : ℕ
  pub spare : ℕ
  pub used : ℕ
  pub warnings_at : get_elem? blob 0 ≡ some warnings
  pub spare_at : get_elem? blob 3 ≡ some spare
  pub used_at : get_elem? blob 5 ≡ some used
  pub reserved : warnings < 64
  pub percentage : spare ≤ 100
  pub verdict : h.ok ≡ some (warnings == 0)
  pub critical_warning : h.critical_warning ≡ some (pos warnings)
  pub available_spare : h.available_spare ≡ some (pos spare)
  pub percent_used : h.percent_used ≡ some (pos used)
  pub celsius : IsCelsius h.temperature_c
  pub warning_limit : h.temperature_warning_c ≡ warning_of identity
  pub critical_limit : h.temperature_critical_c ≡ critical_of identity

abbrev pub Logged : List ℕ → Option NvmeIdentity → Answer Health → Type 0
Logged blob identity (answered h) =
    (512 ≤ length blob)
    × (((any (λ b. not (b == 0)) (take 512 blob) ≡ false) × (h ≡ unread)) ⊎ IsLog blob identity h)
Logged blob identity (failed short_page) = length blob < 512
Logged blob identity (failed floating_page) = is_floating (take 512 blob) ≡ true
Logged blob identity (failed implausible_field) =
    (spare warnings : ℕ) × (get_elem? blob 3 ≡ some spare)
    × (get_elem? blob 0 ≡ some warnings)
    × ((100 < spare) ⊎ (64 ≤ warnings))
Logged blob identity (failed past_end) = ⊥
Logged blob identity (failed (not_ascii_field start)) = ⊥
