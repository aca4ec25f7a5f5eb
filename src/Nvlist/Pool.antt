-- ===== src/Nvlist/Pool.antt =====
-- src/lsdsk/adapters/hw/decode/nvlist.py: a pool's size, allocation and fragmentation.
use lsdsk.Prelude.{
  ℕ, ◌≤◌, ◌≡◌, ◌↔◌, refl, sym, false, Option, none, some, List, [], ◌∷◌, get_elem?, ltb, leb,
  if◌then◌else◌, arith,
}
use mathlib.Core.Path.{subst}
use lsdsk.Nvlist.Values.{
  Result, ok, err, NvValue, NvList, uint64, string, uint64_array, nvlist, nvlist_array, end, member,
  get_entry, no_vdev_tree, no_vdev_stats, short_stats, over_allocated, no_fragmentation, no_number,
}

pub record PoolSpace : Type 0 where
  pub size_bytes : ℕ
  pub alloc_bytes : ℕ

-- `_integers`: an empty list array is a tuple of integers too.
unfoldable pub integers : Option NvValue → Option (List ℕ)
integers (some (uint64_array numbers)) = some numbers
integers (some (nvlist_array end)) = some []
integers (some (nvlist_array (member list lists))) = none
integers (some (uint64 n)) = none
integers (some (string s)) = none
integers (some (nvlist list)) = none
integers none = none

-- `stats[3]` is the allocation and `stats[4]` the size, of five values or more.
unfoldable pub space_of : List ℕ → Result PoolSpace
space_of (s0 ∷ s1 ∷ s2 ∷ alloc ∷ size ∷ rest) =
    if ltb size alloc
    then err over_allocated
    else ok (record { size_bytes = size; alloc_bytes = alloc })
space_of _ = err short_stats

unfoldable pub tree_space : NvList → Result PoolSpace
tree_space tree = elim (integers (get_entry "vdev_stats" tree)) [
  | none ↦ err no_vdev_stats
  | some stats ↦ space_of stats
]

-- `isinstance(value, Mapping)`
unfoldable pub mapping : Option NvValue → Option NvList
mapping (some (nvlist list)) = some list
mapping _ = none

unfoldable pub pool_space : NvList → Result PoolSpace
pool_space config = elim (mapping (get_entry "vdev_tree" config)) [
  | none ↦ err no_vdev_tree
  | some tree ↦ tree_space tree
]

abbrev pub max_fragmentation : ℕ
max_fragmentation = 100

unfoldable pub number_of : Option NvValue → Result (Option ℕ)
number_of (some (uint64 n)) = ok (if leb n max_fragmentation then some n else none)
number_of _ = err no_number

unfoldable pub fragmentation_of : Option NvList → Result (Option ℕ)
fragmentation_of none = err no_fragmentation
fragmentation_of (some property) = number_of (get_entry "value" property)

unfoldable pub pool_fragmentation : NvList → Result (Option ℕ)
unfolding fragmentation_of
pool_fragmentation props = fragmentation_of (mapping (get_entry "fragmentation" props))

-- The figures of a pool where its configuration has them: a `vdev_tree` that is a list, in it a
-- `vdev_stats` of integers, and in those the size fifth and an allocation fourth that fits in it.
pub record HasSpace (config : NvList) (space : PoolSpace) : Type 0 where
  pub tree : NvList
  pub numbers : List ℕ
  pub tree_is : get_entry "vdev_tree" config ≡ some (nvlist tree)
  pub stats_are : get_entry "vdev_stats" tree ≡ some (uint64_array numbers)
  pub size : get_elem? numbers 4 ≡ some space.size_bytes
  pub alloc : get_elem? numbers 3 ≡ some space.alloc_bytes
  pub fits : space.alloc_bytes ≤ space.size_bytes

space_of_iff :
    (stats : List ℕ) (space : PoolSpace)
    → (space_of stats ≡ ok space) ↔ (
        (get_elem? stats 4 ≡ some space.size_bytes)
        × (get_elem? stats 3 ≡ some space.alloc_bytes)
        × (space.alloc_bytes ≤ space.size_bytes))
unfolding space_of
space_of_iff [] space = (λ h. absurd cc, λ h. absurd cc)
space_of_iff (s0 ∷ []) space = (λ h. absurd cc, λ h. absurd cc)
space_of_iff (s0 ∷ s1 ∷ []) space = (λ h. absurd cc, λ h. absurd cc)
space_of_iff (s0 ∷ s1 ∷ s2 ∷ []) space = (λ h. absurd cc, λ h. absurd cc)
space_of_iff (s0 ∷ s1 ∷ s2 ∷ s3 ∷ []) space = (λ h. absurd cc, λ h. absurd cc)
space_of_iff (s0 ∷ s1 ∷ s2 ∷ s3 ∷ s4 ∷ rest) space = (
  λ h. ground arith,
  λ (size, alloc, fits).
      let a : s3 ≡ space.alloc_bytes = cc in
      let z : s4 ≡ space.size_bytes = cc in
      let f : ltb s4 s3 ≡ false = ground arith in rw f (rw (a, z) refl),
)

stats_read :
    (v : Option NvValue) (space : PoolSpace)
    → elim (integers v) [ none ↦ err no_vdev_stats | some stats ↦ space_of stats ] ≡ ok space
    → (numbers : List ℕ) × (v ≡ some (uint64_array numbers)) × (space_of numbers ≡ ok space)
unfolding integers space_of
stats_read (some (uint64_array numbers)) space h = (numbers, refl, h)
stats_read (some (nvlist_array end)) space h = absurd cc
stats_read (some (nvlist_array (member list lists))) space h = absurd cc
stats_read (some (uint64 n)) space h = absurd cc
stats_read (some (string s)) space h = absurd cc
stats_read (some (nvlist list)) space h = absurd cc
stats_read none space h = absurd cc

tree_read :
    (v : Option NvValue) (space : PoolSpace)
    → elim (mapping v) [ none ↦ err no_vdev_tree | some tree ↦ tree_space tree ] ≡ ok space
    → (tree : NvList) × (v ≡ some (nvlist tree)) × (tree_space tree ≡ ok space)
unfolding mapping
tree_read (some (nvlist tree)) space h = (tree, refl, h)
tree_read (some (nvlist_array lists)) space h = absurd cc
tree_read (some (uint64_array numbers)) space h = absurd cc
tree_read (some (uint64 n)) space h = absurd cc
tree_read (some (string s)) space h = absurd cc
tree_read none space h = absurd cc

-- A pool's space is read exactly where its configuration has it: from the fifth and the fourth
-- integer of the `vdev_stats` of its `vdev_tree`, an allocation that fits in the size.
-- Every other configuration is refused.
pub pool_space_iff :
    (config : NvList) (space : PoolSpace) → (pool_space config ≡ ok space) ↔ HasSpace config space
unfolding pool_space tree_space mapping integers
pool_space_iff config space = (
  λ h.
      let (tree, t, k) = tree_read (get_entry "vdev_tree" config) space h in
      let (numbers, n, m) = stats_read (get_entry "vdev_stats" tree) space k in
      let (size, alloc, fits) = (space_of_iff numbers space).0 m in
      record {
        tree = tree;
        numbers = numbers;
        tree_is = t;
        stats_are = n;
        size = size;
        alloc = alloc;
        fits = fits;
      },
  λ p.
      let read = (space_of_iff p.numbers space).1 (p.size, p.alloc, p.fits) in
      let from_tree : tree_space p.tree ≡ ok space =
        subst
          (λ v.
            elim (integers v) [ none ↦ err no_vdev_stats | some stats ↦ space_of stats ] ≡ ok space)
          (sym p.stats_are) read in
      subst
        (λ v. elim (mapping v) [ none ↦ err no_vdev_tree | some tree ↦ tree_space tree ] ≡ ok space)
        (sym p.tree_is) from_tree,
)

number_of-le : (v : Option NvValue) (p : ℕ) → number_of v ≡ ok (some p) → p ≤ max_fragmentation
unfolding number_of
number_of-le v p h = ground arith

fragmentation_of-le : (o : Option NvList) (p : ℕ) → fragmentation_of o ≡ ok (some p) → p ≤ 100
unfolding fragmentation_of
fragmentation_of-le none p h = cc
fragmentation_of-le (some property) p h = number_of-le (get_entry "value" property) p h

-- A pool's fragmentation, where one is published, is a percentage.
pool_fragmentation-le : (props : NvList) (p : ℕ) → pool_fragmentation props ≡ ok (some p) → p ≤ 100
unfolding pool_fragmentation
pool_fragmentation-le props p h =
    fragmentation_of-le (mapping (get_entry "fragmentation" props)) p h
