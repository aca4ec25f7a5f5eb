-- ===== src/Nvme/Tests.antt =====
-- Runs of the NVMe decoder, and its theorem at one where its hypotheses hold.
use lsdsk.Prelude.{ℕ, List, ◌∷◌, replicate}

-- 310 kelvin, full spare, and 5 percent used.
abbrev log_page : List ℕ
log_page = 0 ∷ 0x36 ∷ 0x01 ∷ 100 ∷ 10 ∷ 5 ∷ replicate 506 0
