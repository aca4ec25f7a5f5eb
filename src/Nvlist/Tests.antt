-- ===== src/Nvlist/Tests.antt =====
-- A small nvlist, and each theorem at an input where its hypotheses hold.
use lsdsk.Prelude.{ℕ, ◌≡◌, ◌↔◌, refl, String, List, [], ◌∷◌, ◌++◌, ◌==◌, if◌then◌else◌}
use lsdsk.Nvlist.Values.{ok, uint64, uint64_array, nvlist, NvList, nil, entry, set_entry, get_entry}
use lsdsk.Nvlist.Reader.{
  align, little_endian, bytes_at, int16_at, int32_at, uint64_at, need, pair_head, pair_head_at,
}
use lsdsk.Nvlist.Decode.{value_at, stepped, round, at_depth, pair_loop, pair_list, decode_nvlist}
use lsdsk.Nvlist.Decode.Steps.{Post, Any}
use lsdsk.Nvlist.Decode.Safe.{decode_nvlist-Post}
use lsdsk.Nvlist.Pool.{
  PoolSpace, integers, mapping, space_of, tree_space, pool_space, pool_space_iff, HasSpace,
}

-- The names of one letter that the sample uses.
abbrev ascii : List ℕ → String
ascii [] = ""
ascii (b ∷ bs) = if b == b'a' then "a" else "b"

abbrev word : ℕ → List ℕ
word n = n ∷ 0 ∷ 0 ∷ 0 ∷ []

-- The header of a pair, its name of one letter, and the padding up to the value.
abbrev head : ℕ → ℕ → ℕ → List ℕ
head size name kind =
    word size
    ++ (2 ∷ 0 ∷ 0 ∷ 0 ∷ (word 1 ++ (word kind ++ (name ∷ 0 ∷ 0 ∷ 0 ∷ 0 ∷ 0 ∷ 0 ∷ 0 ∷ []))))

-- `{"a": {"b": 7}}`
abbrev sample : List ℕ
sample =
    0
    ∷ 1
    ∷ 0
    ∷ 0
    ∷ (word 0
        ++ (word 0
            ++ (head 24 b'a' 19 ++ (head 32 b'b' 8 ++ (word 7 ++ (word 0 ++ (word 0 ++ word 0)))))))

sample_decodes : decode_nvlist ascii sample ≡ ok (entry "a" (nvlist (entry "b" (uint64 7) nil)) nil)
unfolding decode_nvlist pair_list pair_loop at_depth round stepped value_at need bytes_at int16_at
    int32_at uint64_at pair_head pair_head_at align little_endian set_entry
sample_decodes = refl

decode_nvlist-Post_example : Post Any (decode_nvlist ascii sample)
decode_nvlist-Post_example = decode_nvlist-Post ascii sample

abbrev tree : NvList
tree = entry "vdev_stats" (uint64_array (1 ∷ 2 ∷ 3 ∷ 40 ∷ 100 ∷ [])) nil

abbrev config : NvList
config = entry "vdev_tree" (nvlist tree) nil

abbrev space : PoolSpace
space = record { size_bytes = 100; alloc_bytes = 40 }

config_read : pool_space config ≡ ok space
unfolding pool_space tree_space space_of mapping integers get_entry
config_read = refl

pool_space_iff_example : (pool_space config ≡ ok space) ↔ HasSpace config space
pool_space_iff_example = pool_space_iff config space
