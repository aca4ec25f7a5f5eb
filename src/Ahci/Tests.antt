-- ===== src/Ahci/Tests.antt =====
-- Registers of real controllers, and the theorem at one of them.
use lsdsk.Prelude.{◌≤◌, ◌≡◌, ◌≢◌, ◌↔◌, refl, true, none, some, arith}
use lsdsk.Prelude.Dict.{lookup}
use lsdsk.Ahci.{
  all_ones_register, holds_ahci_registers, ones, implemented_ports, decode_capabilities,
}
use lsdsk.Ahci.Ports.{bits_set, decode_capabilities_lem}

six_declared :
    decode_capabilities 0xE730FF45 0x3
    ≡ record { interface_speed = some 60; ports_implemented = some 2; ports_declared = 6 }
unfolding decode_capabilities implemented_ports ones lookup
six_declared = refl

aborted : (decode_capabilities 0xFFFFFFFF 0xFFFFFFFF).ports_implemented ≡ none
unfolding decode_capabilities implemented_ports
aborted = refl

thirty_two : (decode_capabilities 0xE730FF1F 0xFFFFFFFF).ports_implemented ≡ some 32
unfolding decode_capabilities implemented_ports ones
thirty_two = refl

contradicted : (decode_capabilities 0xE730FF45 0xFF).ports_implemented ≡ none
unfolding decode_capabilities implemented_ports ones
contradicted = refl

raid_class : holds_ahci_registers (some 0x0104) (some "ahci") ≡ true
unfolding holds_ahci_registers
raid_class = refl

decode_capabilities_lem_example :
    (1 ≤ (decode_capabilities 0xE730FF45 0x3).ports_declared)
    × ((decode_capabilities 0xE730FF45 0x3).ports_declared ≤ 32)
    × (((decode_capabilities 0xE730FF45 0x3).ports_implemented ≡ some 2) ↔ (
        (0xE730FF45 ≢ all_ones_register)
        × (2 ≡ bits_set 0x3 32)
        × (1 ≤ 2)
        × (2 ≤ (decode_capabilities 0xE730FF45 0x3).ports_declared)))
decode_capabilities_lem_example = decode_capabilities_lem 0xE730FF45 0x3 2 (omega arith)
