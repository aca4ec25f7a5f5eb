-- ===== src/Nvlist.antt =====
-- src/lsdsk/adapters/hw/decode/nvlist.py: the nvlists that the ZFS control device answers in.
pub mod Values
pub mod Reader
pub mod Decode
pub mod Pool
pub mod Tests
