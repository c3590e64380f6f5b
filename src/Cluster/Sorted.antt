-- ===== src/Cluster/Sorted.antt =====
-- src/router/cluster.rs: the lookup in a slot map that comes from a reply to CLUSTER SLOTS.
use pyrsedis.Prelude.{
  ℕ, zero, suc, ◌≤◌, ◌<◌, ◌≡◌, refl, sym, subst, pos, true, some, List, [], ◌∷◌, ◌++◌, Bytes,
  get_elem?, ltb, ltb→lt, ltb→le, arith, Bool-cases, ◌⊎◌, inl, inr, All, ◌^◌,
}
use pyrsedis.Cluster.{SlotRange, SlotMap, range_for_slot}
use pyrsedis.Cluster.Lookup.{Holds, IsDisjoint, range_for_slot_complete}
use pyrsedis.Cluster.Slots.{
  as_u16, parse_node_addr, push_replica, parse_replicas, parse_ranges, insert_range, sort_by_start,
  from_cluster_slots,
}
use pyrsedis.Outcome.{ok, ok_or}
use pyrsedis.Resp.Types.{RespValue, Values, nil, cons, as_int, as_str}
use pyrsedis.Text.Decimal.{int_to_string}
use pyrsedis.Text.Utf8.{is_utf8}

abbrev pub Proper : SlotRange → Type 0
Proper r = r.start ≤ r.stop

abbrev Before : SlotRange → SlotRange → Type 0
Before r s = r.stop < s.start

abbrev pub Apart : SlotRange → SlotRange → Type 0
Apart r s = Before r s ⊎ Before s r

-- No two ranges meet, in whatever order they stand.
abbrev pub AllApart : SlotMap → Type 0
AllApart [] = Unit
AllApart (r ∷ ranges) = All (Apart r) ranges × AllApart ranges

-- Each range ends before all that follow.
abbrev Ordered : SlotMap → Type 0
Ordered [] = Unit
Ordered (r ∷ ranges) = Proper r × All (Before r) ranges × Ordered ranges

insert_range-All :
    (P : SlotRange → Type 0) (r : SlotRange) (ranges : SlotMap)
    → P r
    → All P ranges
    → All P (insert_range r ranges)
unfolding insert_range
insert_range-All P r [] p hs = (p, tt)
insert_range-All P r (s ∷ ranges) p (q, hs) = elim (Bool-cases (ltb s.start r.start)) [
  | inl h ↦ rw h (q, insert_range-All P r ranges p hs)
  | inr h ↦ rw h (p, (q, hs))
]

All-Before :
    (r s : SlotRange) (ranges : SlotMap)
    → Before r s
    → Proper s
    → All (Before s) ranges
    → All (Before r) ranges
All-Before r s [] h p hs = tt
All-Before r s (t ∷ ranges) h p (b, hs) = (omega arith, All-Before r s ranges h p hs)

insert_range-Ordered :
    (r : SlotRange) (ranges : SlotMap)
    → Proper r
    → All (Apart r) ranges
    → Ordered ranges
    → Ordered (insert_range r ranges)
unfolding insert_range
insert_range-Ordered r [] p _ _ = (p, tt, tt)
insert_range-Ordered r (s ∷ ranges) p (a, more) (q, b, o) =
    elim (Bool-cases (ltb s.start r.start)) [
      | inl h ↦
          let below = ltb→lt s.start r.start h in
          let front : Before s r = elim a [ inl g ↦ absurd (omega arith) | inr g ↦ g ] in
          rw h (
            q,
            insert_range-All (Before s) r ranges front b,
            insert_range-Ordered r ranges p more o,
          )
      | inr h ↦
          let above = ltb→le s.start r.start h in
          let front : Before r s = elim a [ inl g ↦ g | inr g ↦ absurd (omega arith) ] in
          rw h (p, (front, All-Before r s ranges front q b), (q, b, o))
    ]

sort_by_start-All :
    (P : SlotRange → Type 0) (ranges : SlotMap) → All P ranges → All P (sort_by_start ranges)
unfolding sort_by_start
sort_by_start-All P [] hs = tt
sort_by_start-All P (r ∷ ranges) (p, hs) =
    insert_range-All P r (sort_by_start ranges) p (sort_by_start-All P ranges hs)

sort_by_start-Ordered :
    (ranges : SlotMap) → All Proper ranges → AllApart ranges → Ordered (sort_by_start ranges)
unfolding sort_by_start
sort_by_start-Ordered [] _ _ = tt
sort_by_start-Ordered (r ∷ ranges) (p, ps) (a, more) =
    insert_range-Ordered r (sort_by_start ranges) p (sort_by_start-All (Apart r) ranges a)
      (sort_by_start-Ordered ranges ps more)

-- A range that stands somewhere in a map.
abbrev In : SlotRange → SlotMap → Type 0
In q ranges = (i : ℕ) × (get_elem? ranges i ≡ some q)

later-In : (q r : SlotRange) (ranges : SlotMap) → In q ranges → In q (r ∷ ranges)
later-In q r ranges (i, h) = (suc i, h)

In-insert_range : (r : SlotRange) (ranges : SlotMap) → In r (insert_range r ranges)
unfolding insert_range
In-insert_range r [] = (0, refl)
In-insert_range r (s ∷ ranges) = elim (Bool-cases (ltb s.start r.start)) [
  | inl h ↦ rw h (later-In r s (insert_range r ranges) (In-insert_range r ranges))
  | inr h ↦ rw h (0, refl)
]

insert_range-In : (q r : SlotRange) (ranges : SlotMap) → In q ranges → In q (insert_range r ranges)
unfolding insert_range
insert_range-In q r [] (i, h) = cc
insert_range-In q r (s ∷ ranges) (zero, h) = elim (Bool-cases (ltb s.start r.start)) [
  | inl g ↦ rw g (0, h)
  | inr g ↦ rw g (1, h)
]
insert_range-In q r (s ∷ ranges) (suc i, h) = elim (Bool-cases (ltb s.start r.start)) [
  | inl g ↦ rw g (later-In q s (insert_range r ranges) (insert_range-In q r ranges (i, h)))
  | inr g ↦ rw g (suc (suc i), h)
]

sort_by_start-In :
    (q : SlotRange) (ranges : SlotMap) (i : ℕ)
    → get_elem? ranges i ≡ some q
    → In q (sort_by_start ranges)
unfolding sort_by_start
sort_by_start-In q [] i h = cc
sort_by_start-In q (r ∷ ranges) zero h =
    let same : r ≡ q = cc in
    subst (λ u. In q (insert_range u (sort_by_start ranges))) (sym same)
      (In-insert_range q (sort_by_start ranges))
sort_by_start-In q (r ∷ ranges) (suc i) h =
    insert_range-In q r (sort_by_start ranges) (sort_by_start-In q ranges i h)

All-at :
    (P : SlotRange → Type 0) (ranges : SlotMap) (i : ℕ) (r : SlotRange)
    → All P ranges
    → get_elem? ranges i ≡ some r
    → P r
All-at P [] i r hs e = cc
All-at P (s ∷ ranges) zero r (p, hs) e = let same : s ≡ r = cc in subst P same p
All-at P (s ∷ ranges) (suc i) r (p, hs) e = All-at P ranges i r hs e

Proper-at :
    (ranges : SlotMap)
    → Ordered ranges
    → (i : ℕ) (r : SlotRange) → get_elem? ranges i ≡ some r
    → Proper r
Proper-at [] o i r e = cc
Proper-at (s ∷ ranges) (p, _, _) zero r e = let same : s ≡ r = cc in subst Proper same p
Proper-at (s ∷ ranges) (_, _, o) (suc i) r e = Proper-at ranges o i r e

Before-at :
    (ranges : SlotMap)
    → Ordered ranges
    → (i j : ℕ) (r s : SlotRange) → i < j
    → get_elem? ranges i ≡ some r
    → get_elem? ranges j ≡ some s
    → Before r s
Before-at [] o i j r s h e f = cc
Before-at (t ∷ ranges) o i zero r s h e f = absurd (omega arith)
Before-at (t ∷ ranges) (_, b, _) zero (suc j) r s h e f =
    let same : t ≡ r = cc in subst (λ u. Before u s) same (All-at (Before t) ranges j s b f)
Before-at (t ∷ ranges) (_, _, o) (suc i) (suc j) r s h e f =
    Before-at ranges o i j r s (omega arith) e f

Ordered-IsDisjoint : (ranges : SlotMap) → Ordered ranges → IsDisjoint ranges
Ordered-IsDisjoint ranges o = record { proper = Proper-at ranges o; apart = Before-at ranges o }

-- The address that a node of the reply stands for, whatever follows its port.
pub data NodeText : Bytes → RespValue → Type 0 where
  node_text :
      {host : Bytes} {port : ℕ} {more : Values}
      → is_utf8 host ≡ true
      → NodeText (host ++ b':' ∷ int_to_string (pos port)) (
          RespValue.array
            (cons (RespValue.bulk_string host) (cons (RespValue.integer (pos port)) more)))

pub data NodeTexts : List Bytes → Values → Type 0 where
  no_nodes : NodeTexts [] nil
  next_node :
      {addr : Bytes} {addrs : List Bytes} {r : RespValue} {rs : Values}
      → NodeText addr r
      → NodeTexts addrs rs
      → NodeTexts (addr ∷ addrs) (cons r rs)

-- A range as an entry of the reply: its ends, its master and its replicas.
pub data SlotTexts : SlotMap → Values → Type 0 where
  no_slots : SlotTexts [] nil
  next_slots :
      {start stop : ℕ} {master : Bytes} {replicas : List Bytes} {ranges : SlotMap} {r : RespValue}
      {rs slots : Values}
      → start < 2 ^ 16
      → stop < 2 ^ 16
      → NodeText master r
      → NodeTexts replicas rs
      → SlotTexts ranges slots
      → SlotTexts
          (record { start = start; stop = stop; master = master; replicas = replicas } ∷ ranges)
          (cons
            (RespValue.array (
              cons
                (RespValue.integer (pos start))
                (cons (RespValue.integer (pos stop)) (cons r rs))))
            slots)

parse_node_addr-NodeText :
    {addr : Bytes} {r : RespValue} → NodeText addr r → parse_node_addr r ≡ ok addr
unfolding parse_node_addr as_str as_int ok_or
parse_node_addr-NodeText (node_text u) = rw (as_str, u) refl

parse_replicas-NodeTexts :
    {addrs : List Bytes} {rs : Values} → NodeTexts addrs rs → parse_replicas rs ≡ addrs
unfolding parse_replicas push_replica
parse_replicas-NodeTexts no_nodes = refl
parse_replicas-NodeTexts (next_node t ts) =
    rw (parse_node_addr-NodeText t, parse_replicas-NodeTexts ts) refl

as_u16-small : (n : ℕ) → n < 2 ^ 16 → as_u16 (pos n) ≡ n
unfolding as_u16
as_u16-small n h = omega arith

parse_ranges-SlotTexts :
    {ranges : SlotMap} {slots : Values} → SlotTexts ranges slots → parse_ranges slots ≡ ok ranges
unfolding parse_ranges as_int ok_or
parse_ranges-SlotTexts no_slots = refl
parse_ranges-SlotTexts (next_slots {start} {stop} h k t ts more) =
    rw
      (
        parse_node_addr-NodeText t,
        parse_ranges-SlotTexts more,
        parse_replicas-NodeTexts ts,
        as_u16-small start h,
        as_u16-small stop k,
      )
      refl

-- Where CLUSTER SLOTS is answered with the texts of ranges that do not meet, in any order, the slot
-- map that from_cluster_slots builds finds for every slot of each range that range, with its master
-- and its replicas.
pub from_cluster_slots-SlotTexts :
    {ranges : SlotMap} {slots : Values} (i : ℕ) (r : SlotRange) (slot : ℕ)
    → SlotTexts ranges slots
    → All Proper ranges
    → AllApart ranges
    → get_elem? ranges i ≡ some r
    → Holds slot r
    → (map : SlotMap) × (from_cluster_slots (RespValue.array slots) ≡ ok map)
      × (range_for_slot slot map ≡ some r)
unfolding from_cluster_slots
from_cluster_slots-SlotTexts {ranges} i r slot texts proper apart at held =
    let (k, there) = sort_by_start-In r ranges i at in
    (
      sort_by_start ranges,
      rw (parse_ranges-SlotTexts texts) refl,
      range_for_slot_complete slot (sort_by_start ranges) k r
          (Ordered-IsDisjoint (sort_by_start ranges) (sort_by_start-Ordered ranges proper apart))
          there held,
    )
