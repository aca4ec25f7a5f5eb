-- ===== src/Ahci.antt =====
-- src/lsdsk/adapters/hw/decode/ahci.py: the capability registers of an AHCI controller.
pub mod Ports
pub mod Tests
use lsdsk.Prelude.{
  ℕ, zero, suc, ◌+◌, ◌*◌, ◌/◌, ◌%◌, ◌^◌, String, Bool, true, false, ◌&&◌, ◌||◌, Option, none, some,
  List, [], ◌∷◌, ltb, leb, ◌==◌, if◌then◌else◌,
}
use lsdsk.Prelude.Dict.{lookup, number_key}
use text.Mathlib.Text.{◌==◌ as ◌==ₛ◌}

abbrev pub all_ones_register : ℕ
all_ones_register = 0xFFFFFFFF

abbrev pub ahci_class : ℕ
ahci_class = 0x0106

abbrev pub ahci_driver : String
ahci_driver = "ahci"

-- Rates in tenths of a gigabit per second.
abbrev pub interface_speeds : List (ℕ × ℕ)
interface_speeds = (1, 15) ∷ (2, 30) ∷ (3, 60) ∷ []

abbrev pub is_driver : Option String → Bool
is_driver none = false
is_driver (some name) = name ==ₛ ahci_driver

abbrev pub is_class : Option ℕ → Bool
is_class none = false
is_class (some class) = class == ahci_class

unfoldable pub holds_ahci_registers : Option ℕ → Option String → Bool
holds_ahci_registers class_and_subclass driver = is_driver driver || is_class class_and_subclass

pub record AhciCapabilities : Type 0 where
  pub interface_speed : Option ℕ
  pub ports_implemented : Option ℕ
  pub ports_declared : ℕ

-- The binary digits that are 1. The number itself is fuel enough: a positive number falls when halved.
unfoldable pub ones : ℕ → ℕ → ℕ
ones zero n = 0
ones (suc fuel) n = elim (n == 0) [ true ↦ 0 | false ↦ n % 2 + ones fuel (n / 2) ]

-- `bin(n).count("1")`
abbrev pub count_ones : ℕ → ℕ
count_ones n = ones n n

-- `_implemented_ports`
unfoldable pub implemented_ports : ℕ → ℕ → ℕ → Option ℕ
implemented_ports capability bitmap declared =
    if capability == all_ones_register
    then none
    else if ltb 0 (count_ones bitmap) && leb (count_ones bitmap) declared
    then some (count_ones bitmap)
    else none

unfoldable pub decode_capabilities : ℕ → ℕ → AhciCapabilities
decode_capabilities capability bitmap =
    let declared = capability % 32 + 1 in
    record {
      interface_speed = lookup number_key (capability / 2 ^ 20 % 16) interface_speeds;
      ports_implemented = implemented_ports capability bitmap declared;
      ports_declared = declared;
    }
