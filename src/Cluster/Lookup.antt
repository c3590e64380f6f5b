-- ===== src/Cluster/Lookup.antt =====
-- src/router/cluster.rs: what the binary search of the slot map finds.
use pyrsedis.Prelude.{
  ℕ, zero, suc, ◌+◌, ◌-◌, ◌/◌, ◌≤◌, ◌<◌, ◌≡◌, refl, sym, ap, subst, ◌∙◌, none, some, [], ◌∷◌, Bytes,
  length, get_elem?, ltb, lt→ltb, le→ltb, ltb→lt, ltb→le, arith, Bool-cases, Option-cases, inl, inr,
  ◌⊎◌,
}
use pyrsedis.Cluster.{
  SlotRange, SlotMap, Place, greater, less, equal, place, search, range_index, range_for_slot,
  master_for_slot, set_master, update_slot_master,
}

abbrev pub Holds : ℕ → SlotRange → Type 0
Holds slot r = (r.start ≤ slot) × (slot ≤ r.stop)

-- Ranges in their order, none of which meets another.
pub record IsDisjoint (ranges : SlotMap) : Type 0 where
  pub proper : (i : ℕ) (r : SlotRange) → get_elem? ranges i ≡ some r → r.start ≤ r.stop
  pub apart :
      (i j : ℕ) (r s : SlotRange)
      → i < j
      → get_elem? ranges i ≡ some r
      → get_elem? ranges j ≡ some s
      → r.stop < s.start

place-cases :
    (slot : ℕ) (r : SlotRange)
    → ((place slot r ≡ greater) × (slot < r.start))
      ⊎ ((place slot r ≡ less) × (r.stop < slot))
      ⊎ ((place slot r ≡ equal) × Holds slot r)
unfolding place
place-cases slot r = elim (Bool-cases (ltb slot r.start)) [
  | inl h ↦ inl (rw h, ltb→lt slot r.start h)
  | inr h ↦ elim (Bool-cases (ltb r.stop slot)) [
    | inl g ↦ inr (inl (rw (h, g), ltb→lt r.stop slot g))
    | inr g ↦ inr (inr (rw (h, g), (ltb→le slot r.start h, ltb→le r.stop slot g)))
  ]
]

get_elem?-lt :
    (ranges : SlotMap) (i : ℕ) → i < length ranges → (r : SlotRange) × (get_elem? ranges i ≡ some r)
get_elem?-lt [] i h = absurd (omega arith)
get_elem?-lt (r ∷ ranges) zero h = (r, refl)
get_elem?-lt (r ∷ ranges) (suc i) h = get_elem?-lt ranges i (omega arith)

place-greater : (slot : ℕ) (r : SlotRange) → slot < r.start → place slot r ≡ greater
unfolding place
place-greater slot r h = rw (lt→ltb slot r.start h)

place-less : (slot : ℕ) (r : SlotRange) → r.start ≤ slot → r.stop < slot → place slot r ≡ less
unfolding place
place-less slot r h g = rw (le→ltb slot r.start h, lt→ltb r.stop slot g)

place-equal : (slot : ℕ) (r : SlotRange) → Holds slot r → place slot r ≡ equal
unfolding place
place-equal slot r (h, g) = rw (le→ltb slot r.start h, le→ltb r.stop slot g)

-- Where a range stands to the one that holds the slot.
side :
    {slot k mid : ℕ} {ranges : SlotMap} {m r : SlotRange}
    → IsDisjoint ranges
    → get_elem? ranges mid ≡ some m
    → get_elem? ranges k ≡ some r
    → Holds slot r
    → ((mid < k) × (m.stop < slot)) ⊎ ((mid ≡ k) × Holds slot m) ⊎ ((k < mid) × (slot < m.start))
side {slot} {k} {mid} {ranges} {m} {r} d at_mid at_k held = elim (Bool-cases (ltb mid k)) [
  | inl h ↦
      let before = ltb→lt mid k h in
      inl (before, omega (arith, d.apart mid k m r before at_mid at_k))
  | inr h ↦ elim (Bool-cases (ltb k mid)) [
    | inl g ↦
        let behind = ltb→lt k mid g in
        inr (inr (behind, omega (arith, d.apart k mid r m behind at_k at_mid)))
    | inr g ↦
        let here : mid ≡ k = omega (arith, ltb→le mid k h, ltb→le k mid g) in
        let same : r ≡ m = cc in inr (inl (here, subst (Holds slot) same held))
  ]
]

module _ (slot : ℕ) (ranges : SlotMap) where
  -- One step of the search, at the range in the middle.
  search_step :
      (fuel low high : ℕ) (r : SlotRange) (p : Place)
      → low < high
      → get_elem? ranges (low + (high - low) / 2) ≡ some r
      → place slot r ≡ p
      → search (suc fuel) slot ranges low high ≡ elim p [
        | greater ↦ search fuel slot ranges low (low + (high - low) / 2)
        | less ↦ search fuel slot ranges (low + (high - low) / 2 + 1) high
        | equal ↦ some (low + (high - low) / 2)
      ]
  unfolding search
  search_step fuel low high r p lt at_mid placed = rw (lt→ltb low high lt, at_mid, placed)

  search_complete :
      (fuel low high k : ℕ) (r : SlotRange)
      → IsDisjoint ranges
      → get_elem? ranges k ≡ some r
      → Holds slot r
      → low ≤ k
      → k < high
      → high ≤ length ranges
      → high - low < fuel
      → search fuel slot ranges low high ≡ some k
  search_complete zero low high k r d at_k held lo hi fits enough = absurd (omega arith)
  search_complete (suc fuel) low high k r d at_k held lo hi fits enough =
      let mid : ℕ = low + (high - low) / 2 in
      let (m, at_mid) = get_elem?-lt ranges mid (omega arith) in
      elim (side d at_mid at_k held) [
        | inl (before, low_stop) ↦
            let placed : place slot m ≡ less =
              place-less slot m (omega (arith, d.proper mid m at_mid)) low_stop in
            rw (search_step fuel low high m less (omega arith) at_mid placed) (
              search_complete fuel (mid + 1) high k r d at_k held (omega arith) hi fits
                (omega arith))
        | inr (inl (here, mid_holds)) ↦
            rw
              (search_step fuel low high m equal (omega arith) at_mid
                (place-equal slot m mid_holds))
              (ap some here)
        | inr (inr (behind, high_start)) ↦
            rw
              (search_step fuel low high m greater (omega arith) at_mid
                (place-greater slot m high_start))
              (search_complete fuel low mid k r d at_k held lo behind (omega arith) (omega arith))
      ]

  search_sound :
      (fuel low high : ℕ) {i : ℕ}
      → search fuel slot ranges low high ≡ some i
      → (r : SlotRange) × (get_elem? ranges i ≡ some r) × Holds slot r
  unfolding search
  search_sound zero low high e = cc
  search_sound (suc fuel) low high {i} e = elim (Bool-cases (ltb low high)) [
    | inr h ↦ let none_left = rw h at e in cc
    | inl h ↦ elim (Option-cases (get_elem? ranges (low + (high - low) / 2))) [
      | inl past ↦ let none_there = rw (h, past) at e in cc
      | inr (r, at_mid) ↦ elim (place-cases slot r) [
        | inl (p, lt) ↦ search_sound fuel low (low + (high - low) / 2) (rw (h, at_mid, p) at e)
        | inr (inl (p, gt)) ↦
            search_sound fuel (low + (high - low) / 2 + 1) high (rw (h, at_mid, p) at e)
        | inr (inr (p, held)) ↦
            let found : some (low + (high - low) / 2) ≡ some i = rw (h, at_mid, p) at e in
            (r, cc, held)
      ]
    ]
  ]

get_elem?-bound :
    (k : ℕ) (ranges : SlotMap) {r : SlotRange} → get_elem? ranges k ≡ some r → k < length ranges
get_elem?-bound k [] e = cc
get_elem?-bound zero (q ∷ ranges) e = omega arith
get_elem?-bound (suc k) (q ∷ ranges) e = omega (arith, get_elem?-bound k ranges e)

range_for_slot-index :
    (slot : ℕ) (ranges : SlotMap) {i : ℕ}
    → range_index slot ranges ≡ some i
    → range_for_slot slot ranges ≡ get_elem? ranges i
unfolding range_for_slot
range_for_slot-index slot ranges e = rw (range_for_slot, e)

range_for_slot-none :
    (slot : ℕ) (ranges : SlotMap)
    → range_index slot ranges ≡ none
    → range_for_slot slot ranges ≡ none
unfolding range_for_slot
range_for_slot-none slot ranges e = rw (range_for_slot, e)

-- In a map of ranges that are in order and do not meet, the search finds the range that holds a slot.
pub range_for_slot_complete :
    (slot : ℕ) (ranges : SlotMap) (k : ℕ) (r : SlotRange)
    → IsDisjoint ranges
    → get_elem? ranges k ≡ some r
    → Holds slot r
    → range_for_slot slot ranges ≡ some r
unfolding range_index
range_for_slot_complete slot ranges k r d at_k held =
    range_for_slot-index slot ranges (
      search_complete slot ranges (suc (length ranges)) 0 (length ranges) k r d at_k held
        (omega arith) (get_elem?-bound k ranges at_k) (omega arith) (omega arith))
    ∙ at_k

range_index_sound :
    (slot : ℕ) (ranges : SlotMap) {i : ℕ}
    → range_index slot ranges ≡ some i
    → (r : SlotRange) × (get_elem? ranges i ≡ some r) × Holds slot r
unfolding range_index
range_index_sound slot ranges = search_sound slot ranges (suc (length ranges)) 0 (length ranges)

-- On any map, a range that the search finds holds the slot.
pub range_for_slot_sound :
    (slot : ℕ) (ranges : SlotMap) (r : SlotRange)
    → range_for_slot slot ranges ≡ some r
    → Holds slot r
unfolding range_for_slot
range_for_slot_sound slot ranges r e = elim (Option-cases (range_index slot ranges)) [
  | inl missing ↦ let nothing = rw (range_for_slot, missing) at e in cc
  | inr (i, found) ↦
      let (q, at_i, held) = range_index_sound slot ranges found in
      let same : q ≡ r = let there = range_for_slot-index slot ranges found in cc in
      subst (Holds slot) same held
]

-- A range with another master.
abbrev with_master : Bytes → SlotRange → SlotRange
with_master addr r = record { start = r.start; stop = r.stop; master = addr; replicas = r.replicas }

set_master-here :
    (i : ℕ) (addr : Bytes) (ranges : SlotMap) {r : SlotRange}
    → get_elem? ranges i ≡ some r
    → get_elem? (set_master i addr ranges) i ≡ some (with_master addr r)
unfolding set_master
set_master-here i addr [] e = cc
set_master-here zero addr (q ∷ ranges) e = cc
set_master-here (suc i) addr (q ∷ ranges) e = set_master-here i addr ranges e

-- At each index there is a range as before, up to its master.
set_master-places :
    (slot i j : ℕ) (addr : Bytes) (ranges : SlotMap)
    → ((get_elem? ranges j ≡ none) × (get_elem? (set_master i addr ranges) j ≡ none))
      ⊎ ((r : SlotRange) × (q : SlotRange) × (get_elem? ranges j ≡ some r)
          × (get_elem? (set_master i addr ranges) j ≡ some q)
          × (place slot q ≡ place slot r))
unfolding set_master place
set_master-places slot i j addr [] = inl (refl, refl)
set_master-places slot zero zero addr (r ∷ ranges) = inr (r, with_master addr r, refl, refl, refl)
set_master-places slot (suc i) zero addr (r ∷ ranges) = inr (r, r, refl, refl, refl)
set_master-places slot zero (suc j) addr (r ∷ ranges) = elim (Option-cases (get_elem? ranges j)) [
  | inl e ↦ inl (e, e)
  | inr (q, e) ↦ inr (q, q, e, e, refl)
]
set_master-places slot (suc i) (suc j) addr (r ∷ ranges) = set_master-places slot i j addr ranges

search-set_master :
    (fuel slot i low high : ℕ) (addr : Bytes) (ranges : SlotMap)
    → search fuel slot (set_master i addr ranges) low high ≡ search fuel slot ranges low high
unfolding search
search-set_master zero slot i low high addr ranges = refl
search-set_master (suc fuel) slot i low high addr ranges =
    let mid : ℕ = low + (high - low) / 2 in
    let left = search-set_master fuel slot i low mid addr ranges in
    let right = search-set_master fuel slot i (mid + 1) high addr ranges in
    elim (set_master-places slot i mid addr ranges) [
      | inl (e, g) ↦ rw (e, g)
      | inr (r, q, e, g, same) ↦ elim (place-cases slot r) [
        | inl (p, _) ↦ rw (e, g, same, p, left)
        | inr (inl (p, _)) ↦ rw (e, g, same, p, right)
        | inr (inr (p, _)) ↦ rw (e, g, same, p)
      ]
    ]

length-set_master :
    (i : ℕ) (addr : Bytes) (ranges : SlotMap) → length (set_master i addr ranges) ≡ length ranges
unfolding set_master
length-set_master i addr [] = refl
length-set_master zero addr (r ∷ ranges) = refl
length-set_master (suc i) addr (r ∷ ranges) = ap suc (length-set_master i addr ranges)

-- After an update that a MOVED reply asks for, a slot that the map covers has the new master.
pub master_for_slot-update_slot_master :
    (slot : ℕ) (addr : Bytes) (ranges : SlotMap) (r : SlotRange)
    → range_for_slot slot ranges ≡ some r
    → master_for_slot slot (update_slot_master slot addr ranges) ≡ some addr
unfolding update_slot_master master_for_slot range_index
master_for_slot-update_slot_master slot addr ranges r e =
    elim (Option-cases (range_index slot ranges)) [
      | inl missing ↦ let nothing = range_for_slot-none slot ranges missing in cc
      | inr (i, found) ↦
          let at_i = sym (range_for_slot-index slot ranges found) ∙ e in
          let again : range_index slot (set_master i addr ranges) ≡ some i =
            rw (length-set_master i addr ranges) (
              search-set_master (suc (length ranges)) slot i 0 (length ranges) addr ranges
              ∙ found) in
          let new_range =
            range_for_slot-index slot (set_master i addr ranges) again
            ∙ set_master-here i addr ranges at_i in
          rw (update_slot_master, found, master_for_slot, new_range)
    ]
