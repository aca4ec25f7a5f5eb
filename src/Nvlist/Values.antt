-- ===== src/Nvlist/Values.antt =====
-- The decoded values of src/lsdsk/adapters/hw/decode/nvlist.py, and its errors.
use lsdsk.Prelude.{ℕ, String, Option, none, some, List, if◌then◌else◌}
use text.Mathlib.Text.{◌==◌}

-- Each `ValueError` of the module, and what must never be raised: `struct.error`, for an unpacking
-- past the end of the buffer, and running out of the model's fuel.
pub data Error : Type 0 where
  too_short not_native past_buffer past_pair too_deep too_many_pairs short_pair : Error
  name_past_pair string_past_pair long_string bad_member_count : Error
  no_vdev_tree no_vdev_stats short_stats over_allocated no_fragmentation no_number : Error
  struct_error out_of_fuel : Error

pub data Result {ℓ} (A : Type ℓ) : Type ℓ where
  ok : A → Result A
  err : Error → Result A

infixl 5 ◌>>=◌
abbrev pub ◌>>=◌ {ℓ κ} : {A : Type ℓ} {B : Type κ} → Result A → (A → Result B) → Result B
ok a >>= f = f a
err e >>= f = err e

-- `NvValue` and `NvList`: a mapping is its entries in the order of their first setting.
mutual
  pub data NvValue : Type 0 where
    uint64 : ℕ → NvValue
    string : String → NvValue
    uint64_array : List ℕ → NvValue
    nvlist : NvList → NvValue
    nvlist_array : NvLists → NvValue

  pub data NvList : Type 0 where
    nil : NvList
    entry : String → NvValue → NvList → NvList

  pub data NvLists : Type 0 where
    end : NvLists
    member : NvList → NvLists → NvLists

-- `out[name] = value`
unfoldable pub set_entry : String → NvValue → NvList → NvList
set_entry name value nil = entry name value nil
set_entry name value (entry n v rest) =
    if n == name then entry n value rest else entry n v (set_entry name value rest)

-- `config.get(name)`
unfoldable pub get_entry : String → NvList → Option NvValue
get_entry name nil = none
get_entry name (entry n v rest) = if n == name then some v else get_entry name rest
