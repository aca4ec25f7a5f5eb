-- ===== src/AtaSmart.antt =====
-- src/lsdsk/adapters/hw/decode/ata_smart.py: the SMART structures of an ATA drive.
pub mod Table
pub mod Health
pub mod Limits
pub mod Rows
pub mod Verdict
pub mod Tests
