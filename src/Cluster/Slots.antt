-- ===== src/Cluster/Slots.antt =====
-- src/router/cluster.rs: the slot map from the reply to CLUSTER SLOTS.
use pyrsedis.Prelude.{
  ℕ, ◌-◌, ◌%◌, ◌^◌, ℤ, pos, negsuc, List, [], ◌∷◌, ◌++◌, Bytes, ltb, if◌then◌else◌,
}
use pyrsedis.Cluster.{SlotRange, SlotMap}
use pyrsedis.Error.{
  cluster, expected_slots_array, invalid_slot_start, invalid_slot_end, expected_node_array,
  short_node_array, invalid_host, invalid_port_value,
}
use pyrsedis.Outcome.{Outcome, ok, fail, ◌>>=◌, ok_or}
use pyrsedis.Resp.Types.{RespValue, Values, nil, cons, as_int, as_str, type_name}
use pyrsedis.Text.Decimal.{int_to_string}

-- `i as u16` of an i64.
unfoldable pub as_u16 : ℤ → ℕ
as_u16 (pos n) = n % 2 ^ 16
as_u16 (negsuc n) = 2 ^ 16 - 1 - n % 2 ^ 16

unfoldable pub parse_node_addr : RespValue → Outcome Bytes
parse_node_addr (RespValue.array (cons first (cons second more))) = do
  host ← ok_or (as_str first) (cluster invalid_host)
  port ← ok_or (as_int second) (cluster invalid_port_value)
  ok (host ++ b':' ∷ int_to_string port)
parse_node_addr (RespValue.array _) = fail (cluster short_node_array)
parse_node_addr _ = fail (cluster expected_node_array)

-- `if let Ok(addr) = parse_node_addr(node) { replicas.push(addr); }`.
unfoldable pub push_replica : Outcome Bytes → List Bytes → List Bytes
push_replica (ok addr) replicas = addr ∷ replicas
push_replica _ replicas = replicas

unfoldable pub parse_replicas : Values → List Bytes
parse_replicas nil = []
parse_replicas (cons node nodes) = push_replica (parse_node_addr node) (parse_replicas nodes)

-- The loop over the entries: what is no array of three elements is passed over.
unfoldable pub parse_ranges : Values → Outcome SlotMap
parse_ranges nil = ok []
parse_ranges (cons (RespValue.array (cons first (cons second (cons third nodes)))) slots) = do
  start ← ok_or (as_int first) (cluster invalid_slot_start)
  stop ← ok_or (as_int second) (cluster invalid_slot_end)
  master ← parse_node_addr third
  ranges ← parse_ranges slots
  ok (
      record {
        start = as_u16 start;
        stop = as_u16 stop;
        master = master;
        replicas = parse_replicas nodes;
      }
      ∷ ranges)
parse_ranges (cons _ slots) = parse_ranges slots

-- slice::sort_by_key at the start, which keeps the order of what is equal.
unfoldable pub insert_range : SlotRange → SlotMap → SlotMap
insert_range r [] = r ∷ []
insert_range r (s ∷ ranges) =
    let later = insert_range r ranges in if ltb s.start r.start then s ∷ later else r ∷ s ∷ ranges

unfoldable pub sort_by_start : SlotMap → SlotMap
sort_by_start [] = []
sort_by_start (r ∷ ranges) = insert_range r (sort_by_start ranges)

unfoldable pub from_cluster_slots : RespValue → Outcome SlotMap
from_cluster_slots (RespValue.array slots) =
    parse_ranges slots >>= λ ranges. ok (sort_by_start ranges)
from_cluster_slots resp = fail (cluster (expected_slots_array (type_name resp)))
