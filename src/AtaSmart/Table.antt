-- ===== src/AtaSmart/Table.antt =====
-- The attribute table and the thresholds of src/lsdsk/adapters/hw/decode/ata_smart.py. A byte past
-- the end of a buffer is an `IndexError`, `none` below and `index_error` in the result.
use lsdsk.Prelude.{
  ℕ, zero, suc, ◌+◌, ◌*◌, String, Bool, true, ◌&&◌, Option, none, some, List, [], ◌∷◌, length,
  get_elem?, take, drop, ltb, ◌==◌, if◌then◌else◌,
}
use lsdsk.Prelude.Optional.{◌>>=◌}
use lsdsk.Prelude.Dict.{lookup, insert, number_key}
use lsdsk.Models.{SmartAttribute}

pub data SmartError : Type 0 where
  short_data floating_page index_error : SmartError

pub data Decoded : Type 0 where
  ok : List SmartAttribute → Decoded
  err : SmartError → Decoded

abbrev pub smart_data_length : ℕ
smart_data_length = 512

abbrev pub table_offset : ℕ
table_offset = 2

abbrev pub entry_size : ℕ
entry_size = 12

abbrev pub entry_count : ℕ
entry_count = 30

abbrev pub attribute_names : List (ℕ × String)
attribute_names =
    (1, "Raw_Read_Error_Rate")
    ∷ (3, "Spin_Up_Time")
    ∷ (4, "Start_Stop_Count")
    ∷ (5, "Reallocated_Sector_Ct")
    ∷ (7, "Seek_Error_Rate")
    ∷ (9, "Power_On_Hours")
    ∷ (10, "Spin_Retry_Count")
    ∷ (12, "Power_Cycle_Count")
    ∷ (173, "Wear_Leveling_Count")
    ∷ (177, "Wear_Leveling_Count")
    ∷ (179, "Used_Rsvd_Blk_Cnt_Tot")
    ∷ (181, "Program_Fail_Cnt_Total")
    ∷ (182, "Erase_Fail_Count_Total")
    ∷ (183, "Runtime_Bad_Block")
    ∷ (184, "End-to-End_Error")
    ∷ (187, "Reported_Uncorrect")
    ∷ (188, "Command_Timeout")
    ∷ (190, "Airflow_Temperature_Cel")
    ∷ (194, "Temperature_Celsius")
    ∷ (195, "Hardware_ECC_Recovered")
    ∷ (196, "Reallocated_Event_Count")
    ∷ (197, "Current_Pending_Sector")
    ∷ (198, "Offline_Uncorrectable")
    ∷ (199, "UDMA_CRC_Error_Count")
    ∷ (202, "Percent_Lifetime_Remain")
    ∷ (231, "SSD_Life_Left")
    ∷ (233, "Media_Wearout_Indicator")
    ∷ (241, "Total_LBAs_Written")
    ∷ (242, "Total_LBAs_Read")
    ∷ (246, "Total_Host_Sector_Write")
    ∷ []

-- `int.from_bytes(..., "little")`
unfoldable pub from_bytes : List ℕ → ℕ
from_bytes [] = 0
from_bytes (b ∷ bs) = b + 256 * from_bytes bs

-- `refuse_a_floating_page`: whether every byte is 0xFF, of one or more.
unfoldable pub all_ones : List ℕ → Bool
all_ones [] = true
all_ones (b ∷ bs) = b == 0xff && all_ones bs

unfoldable pub is_floating : List ℕ → Bool
is_floating page = ltb 0 (length page) && all_ones page

name_or_empty : Option String → String
name_or_empty none = ""
name_or_empty (some name) = name

-- One slot of the table, `none` inside where it is empty.
unfoldable pub row_at : List ℕ → List (ℕ × ℕ) → ℕ → Option (Option SmartAttribute)
unfolding name_or_empty
row_at bytes limits offset = get_elem? bytes offset >>= λ identifier.
    if identifier == 0
    then some none
    else (get_elem? bytes (offset + 3) >>= λ value. get_elem? bytes (offset + 4) >>= λ worst. some (
        some (record {
          id = identifier;
          name = name_or_empty (lookup number_key identifier attribute_names);
          value = value;
          worst = worst;
          threshold = lookup number_key identifier limits;
          raw = from_bytes (take 6 (drop (offset + 5) bytes));
        })))

unfoldable pub keep_row : Option SmartAttribute → List SmartAttribute → List SmartAttribute
keep_row none rest = rest
keep_row (some a) rest = a ∷ rest

-- The loop over the slots that are left, from the slot `index` on.
unfoldable pub rows : List ℕ → List (ℕ × ℕ) → ℕ → ℕ → Option (List SmartAttribute)
rows bytes limits zero index = some []
rows bytes limits (suc left) index =
    let rest = rows bytes limits left (index + 1) in
    row_at bytes limits (table_offset + index * entry_size) >>= λ row.
    rest >>= λ attributes. some (keep_row row attributes)

-- One slot of the thresholds: a later slot of one identifier wins.
unfoldable pub limit_at : List ℕ → List (ℕ × ℕ) → ℕ → Option (List (ℕ × ℕ))
limit_at blob limits offset = get_elem? blob offset >>= λ identifier.
    if identifier == 0
    then some limits
    else (get_elem? blob (offset + 1) >>= λ limit. some (insert number_key identifier limit limits))

unfoldable pub limits_from : List ℕ → ℕ → ℕ → List (ℕ × ℕ) → Option (List (ℕ × ℕ))
limits_from blob zero index limits = some limits
limits_from blob (suc left) index limits =
    limit_at blob limits (table_offset + index * entry_size) >>= λ more.
    limits_from blob left (index + 1) more

-- `_decode_thresholds`
unfoldable pub decode_thresholds : Option (List ℕ) → Option (List (ℕ × ℕ))
decode_thresholds none = some []
decode_thresholds (some blob) =
    if ltb (length blob) smart_data_length then some [] else limits_from blob entry_count 0 []

decoded : Option (List SmartAttribute) → Decoded
decoded none = err index_error
decoded (some attributes) = ok attributes

unfoldable pub decode_attributes : List ℕ → Option (List ℕ) → Decoded
unfolding decoded
decode_attributes bytes thresholds =
    if ltb (length bytes) smart_data_length
    then err short_data
    else if is_floating (take smart_data_length bytes)
    then err floating_page
    else decoded (decode_thresholds thresholds >>= λ limits. rows bytes limits entry_count 0)
