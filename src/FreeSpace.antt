-- ===== src/FreeSpace.antt =====
-- src/lsdsk/domain/fragmentation.py and src/lsdsk/adapters/hw/decode/free_extents.py: free extents
-- are counted into a small histogram, and the histogram is scored.
pub mod Fragmentation
pub mod Tally
pub mod Score
pub mod Tests
