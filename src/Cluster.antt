-- ===== src/Cluster.antt =====
-- src/router/cluster.rs: the slot map of a cluster, the key of a command, and where it is sent.
pub mod Keys
pub mod Lookup
pub mod Pipeline
pub mod Redirects
pub mod Slots
pub mod Sorted
mod Tests
use pyrsedis.Prelude.{
  ℕ, zero, suc, ◌+◌, ◌-◌, ◌/◌, ◌%◌, Bool, true, false, Option, none, some, List, [], ◌∷◌, Bytes,
  length, get_elem?, ltb, leb, ◌==◌, if◌then◌else◌,
}

-- An address is the text `host:port`.
pub record SlotRange : Type 0 where
  pub start : ℕ
  pub stop : ℕ
  pub master : Bytes
  pub replicas : List Bytes

abbrev pub SlotMap : Type 0
SlotMap = List SlotRange

-- What the comparison of `binary_search_by` returns for a range.
pub data Place : Type 0 where
  greater less equal : Place

unfoldable pub place : ℕ → SlotRange → Place
place slot r = if ltb slot r.start then greater else if ltb r.stop slot then less else equal

-- slice::binary_search_by between two indices: the index of a range that the comparison calls equal.
unfoldable pub search : ℕ → ℕ → SlotMap → ℕ → ℕ → Option ℕ
search zero slot ranges low high = none
search (suc fuel) slot ranges low high =
    let mid = low + (high - low) / 2 in
    let left = search fuel slot ranges low mid in
    let right = search fuel slot ranges (mid + 1) high in
    if ltb low high
    then elim (get_elem? ranges mid) [
      | none ↦ none
      | some r ↦ elim (place slot r) [ greater ↦ left | less ↦ right | equal ↦ some mid ]
    ]
    else none

unfoldable pub range_index : ℕ → SlotMap → Option ℕ
range_index slot ranges = search (suc (length ranges)) slot ranges 0 (length ranges)

unfoldable pub range_for_slot : ℕ → SlotMap → Option SlotRange
range_for_slot slot ranges = elim (range_index slot ranges) [
  | none ↦ none
  | some i ↦ get_elem? ranges i
]

unfoldable pub master_for_slot : ℕ → SlotMap → Option Bytes
master_for_slot slot ranges = elim (range_for_slot slot ranges) [
  | none ↦ none
  | some r ↦ some r.master
]

-- `range.replicas[slot % len]`, or the master where there are none.
unfoldable pub pick_replica : ℕ → SlotRange → Option Bytes
pick_replica slot r = elim r.replicas [
  | [] ↦ some r.master
  | a ∷ others ↦ get_elem? (a ∷ others) (slot % length (a ∷ others))
]

unfoldable pub replica_for_slot : ℕ → SlotMap → Option Bytes
replica_for_slot slot ranges = elim (range_for_slot slot ranges) [
  | none ↦ none
  | some r ↦ pick_replica slot r
]

unfoldable pub set_master : ℕ → Bytes → SlotMap → SlotMap
set_master i addr [] = []
set_master zero addr (r ∷ ranges) =
    record { start = r.start; stop = r.stop; master = addr; replicas = r.replicas } ∷ ranges
set_master (suc i) addr (r ∷ ranges) = r ∷ set_master i addr ranges

unfoldable pub update_slot_master : ℕ → Bytes → SlotMap → SlotMap
update_slot_master slot addr ranges = elim (range_index slot ranges) [
  | none ↦ ranges
  | some i ↦ set_master i addr ranges
]
