-- ===== src/Lib.antt =====
-- lsdsk reads the storage hardware of a machine, judges it by rules and keeps a history of each drive's
-- counters. This library models the parts of it that decide something and proves what makes them right.
--
-- The program's parts and how they meet. A scan reads raw structures (ATA SMART pages, ZFS nvlists, free
-- extents of a filesystem) through readers of Linux and Windows; decoders turn the bytes into domain
-- values; rules weigh these against the thresholds; and the counters of every drive are sampled, folded
-- into the history of the machine, reduced to a cap and judged as trends.
--
-- Which file models which part:
-- - Prelude: what the modules share. Tests has the Boolean tests on numbers, Lists the lists measured by
--   native numbers with `Sub`, the selection that keeps the order, Int Python's integers as two
--   constructors, Dict Python's `dict` as a list of keys and values in the order of their first setting,
--   Sort Python's `sorted`, Optional code that may raise.
-- - Thresholds: src/lsdsk/domain/thresholds.py. `Floats` is Python's float, a parameter with the
--   operations that the rules use on it. Examples has the data of the runs.
-- - Models: of src/lsdsk/domain/models.py the records `SmartAttribute`, `Health` and `InterfaceLink`.
--   `Filesystem` and its percentages are in Filesystems, and the fields of `Disk` that the history reads
--   in History.Types.
-- - History: src/lsdsk/domain/history.py. Types has the samples, series and histories, with `identity_of`
--   and `sample_from`. Thin is `thin` and `_spread_over_hours`. Trend is `trend_for` with `_anchors`,
--   `_previous_reading`, `_quiet_run_start`, `_rising` and `_quiet`; a series of usable samples that is
--   not empty is its first sample and the rest. Record is `record` with its two dictionaries as explicit
--   state (`Store`), a `KeyError` as `none`, and `has_new_readings`, `has_recordable_drive` and
--   `untracked_disks`. Their proofs are in the child modules, named for what they prove. Merge is
--   `merge_duplicate_series`, whose dictionaries are lists too; a `KeyError` is `none`.
-- - FreeSpace: src/lsdsk/domain/fragmentation.py (Fragmentation, Score) and
--   src/lsdsk/adapters/hw/decode/free_extents.py (Tally). A refused extent is a result, not a state.
-- - Nvlist: src/lsdsk/adapters/hw/decode/nvlist.py. Values has the decoded values and every error of the
--   module as a value, Reader the bounds, integers, heads and strings, Decode the loop over pairs, Pool
--   the two readers of a pool's figures. The count of pairs that the reader keeps is passed along.
-- - AtaSmart: src/lsdsk/adapters/hw/decode/ata_smart.py, with the two guards that it takes from
--   captured.py beside it. Table is the attribute table and the thresholds, Health what is read out of it.
-- - Ahci: src/lsdsk/adapters/hw/decode/ahci.py. Sense: src/lsdsk/adapters/hw/decode/scsi_sense.py.
-- - Filesystems: the percentages of a filesystem (src/lsdsk/domain/models.py) and, in Fill, the rule of
--   src/lsdsk/domain/filesystem_fill.py.
--
-- - Findings: of src/lsdsk/domain/diagnostics.py the severities, the order of a report and its counts,
--   and `Finding` of models.py. A rule brings the type of its texts: the figures they are written from.
-- - HealthRules: `diagnose_health` of src/lsdsk/domain/diagnostics.py with every rule it calls. Texts has
--   the texts, Counters the rules over error counters with `refine`; a detail is the list of the
--   sentences that the code joins.
-- - MaxTree: `_FirstPortAtLeast` of src/lsdsk/domain/diagnostics.py. Array has its operations on the list
--   that it keeps; a read or a write past the end of a list is `none`. The other modules are about the
--   same tree with the function from its indexes in place of the list, for the proofs: Array.Holds and
--   Array.Lifetime show that the two agree. Above has `_FirstAbove` of models.py, the same tree asked for
--   the first value above a threshold: Found is about what its loop finds below a node, Scan compares it
--   with a scan along the list.
-- - VolumeBitmap: the cluster bitmap of src/lsdsk/adapters/hw/windows/volume_layout.py. Runs has the
--   reference, the lengths of the free runs of a list of clusters; Masks and Window are about `_window`,
--   Stretches about `_free_runs`, Fold and Feed about `FreeRunFolder`, Header about `parse_bitmap_header`.
-- - Identify: src/lsdsk/adapters/hw/decode/ata_identify.py, with `device_text` of text.py on ASCII.
-- - Nvme: src/lsdsk/adapters/hw/decode/nvme.py. A read past the end is `past_end`.
--
-- How values are modelled. A Python `int` that the code lets be negative is `ℤ`; counts and bytes of a
-- buffer are numbers. A text is a `String`. A buffer is a list of numbers, and a theorem that needs them
-- to be bytes says so. An index past the end of a buffer is an error of the model: `index_error` in
-- AtaSmart and Sense, `struct_error` in Nvlist. The 256 words of an IDENTIFY page are all there, so that an
-- index of the code, which is a constant below 256, always finds its word.
--
-- Fuel and bounds. Six loops are not structural. `bit_length` of FreeSpace and `count_ones` of Ahci take
-- the number itself as fuel, which halving cannot use up. The pair loop of Nvlist takes the buffer's length as fuel: each
-- round and each list uses at least four bytes of it. Running out would be the error `out_of_fuel`.
-- The descent of the max tree takes the number of its leaves as fuel and the walk back the leaf's own index:
-- a step down doubles the index, and a step up halves it. The loop of `_FirstAbove` takes twice the number of
-- leaves, as it visits no node twice. The caps of the code (32 levels, 100,000 pairs, 65,536 bytes of a string, 1,000,000
-- extents, 64 bits of free bytes, 30 attributes) are the code's own.
--
-- Parameters. The decoding of UTF-8 is an argument of the nvlist decoder, which no theorem constrains. The
-- arithmetic of floats is `Floats`; the theorems on the max tree take the order of floats as a hypothesis
-- (`IsComparable`, without a NaN, and `IsStrict`). The operations of `Floats` give a value for all their
-- arguments, though Python's raise for a division by 0 and for an integer past the floats. No argument
-- of the modelled code is one of these: a span that is divided by is at least `min_span_hours`, which
-- thresholds.py holds at 1 or more, an hour that is divided by is above 0, a rate that is divided by is
-- that of a gain of 1 or more, and src/lsdsk/adapters/history/store.py refuses any figure above 10 ** 300.
--
-- Not modelled: reading devices, files, the registry and the environment; the command line, the report
-- and the interactive view, which write text over third-party packages; validation by the package behind
-- the records; the text of messages and findings, whose figures stand for it; `plausible_celsius` of
-- other units than degrees, which divides floats. The other decoders (USB, PCI names), the remaining
-- rules and the history store's reading are left for later.
pub mod Prelude
pub mod Thresholds
pub mod Models
pub mod History
pub mod FreeSpace
pub mod Nvlist
pub mod AtaSmart
pub mod Filesystems
pub mod Ahci
pub mod Sense
pub mod Findings
pub mod HealthRules
pub mod MaxTree
pub mod VolumeBitmap
pub mod Identify
pub mod Nvme
