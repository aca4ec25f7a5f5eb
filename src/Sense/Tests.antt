-- ===== src/Sense/Tests.antt =====
-- Sense data of both layouts, and the theorem at one of them.
use lsdsk.Prelude.{ℕ, ◌≡◌, refl, List, [], ◌∷◌, replicate}
use lsdsk.Prelude.Dict.{lookup}
use lsdsk.Sense.{layout_of, described, nothing, described_from, describe_at, describe_sense}
use lsdsk.Sense.Fields.{IsSensed, describe_sense-IsSensed}

abbrev refused : List ℕ
refused = 0x70 ∷ 0 ∷ 0x05 ∷ 0 ∷ 0 ∷ 0 ∷ 0 ∷ 10 ∷ 0 ∷ 0 ∷ 0 ∷ 0 ∷ 0x20 ∷ 0x00 ∷ []

refused_described :
    describe_sense refused
    ≡ described (record { key = 5; name = "ILLEGAL REQUEST"; asc = 0x20; ascq = 0 })
unfolding describe_sense describe_at described_from layout_of lookup
refused_described = refl

descriptor_described :
    describe_sense (0x72 ∷ 0x02 ∷ 0x04 ∷ 0x01 ∷ [])
    ≡ described (record { key = 2; name = "NOT READY"; asc = 4; ascq = 1 })
unfolding describe_sense describe_at described_from layout_of lookup
descriptor_described = refl

zeros : describe_sense (replicate 32 0) ≡ nothing
unfolding describe_sense describe_at layout_of
zeros = refl

describe_sense-IsSensed_example : IsSensed refused (describe_sense refused)
describe_sense-IsSensed_example = describe_sense-IsSensed refused
