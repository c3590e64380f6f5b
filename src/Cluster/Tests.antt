-- ===== src/Cluster/Tests.antt =====
-- A small cluster: lookups, routes and a circle of redirects, and the theorems at them.
use pyrsedis.Prelude.{ℕ, suc, ◌+◌, ◌≤◌, ◌≡◌, refl, some, List, [], ◌∷◌, Bytes, codes, arith}
use pyrsedis.Cluster.{
  SlotRange, SlotMap, range_for_slot, range_index, search, place, master_for_slot,
  update_slot_master,
}
use pyrsedis.Cluster.Keys.{
  extract_key, is_read_only_command, eval_key, target_node, target_node-HashTag,
}
use pyrsedis.Cluster.Lookup.{master_for_slot-update_slot_master}
use pyrsedis.Cluster.Slots.{from_cluster_slots}
use pyrsedis.Cluster.Sorted.{
  from_cluster_slots-SlotTexts, node_text, no_nodes, next_node, no_slots, next_slots,
}
use pyrsedis.Prelude.{pos, inr, ◌++◌, true}
use pyrsedis.Text.Decimal.{int_to_string}
use pyrsedis.Text.Utf8.{is_utf8}
use pyrsedis.Cluster.Redirects.{Nodes, Router, execute_on, execute_on_bound}
use pyrsedis.Crc16.Slots.{HashTag, tagged}
use pyrsedis.Outcome.{ok}
use pyrsedis.Resp.Types.{RespValue, Values, nil, cons}
use pyrsedis.Text.{to_ascii_uppercase}
use pyrsedis.Text.Number.{parse_uint}

abbrev low : SlotRange
low = record { start = 0; stop = 99; master = codes "a:1"; replicas = codes "r:1" ∷ [] }

abbrev high : SlotRange
high = record { start = 100; stop = 16383; master = codes "b:1"; replicas = [] }

abbrev two_nodes : SlotMap
two_nodes = low ∷ high ∷ []

-- The reply to CLUSTER SLOTS with the ranges out of order, and a replica behind a master.
abbrev node_of : Bytes → ℕ → RespValue
node_of host port =
    RespValue.array (cons (RespValue.bulk_string host) (cons (RespValue.integer (pos port)) nil))

abbrev address_of : Bytes → ℕ → Bytes
address_of host port = host ++ b':' ∷ int_to_string (pos port)

abbrev upper : SlotRange
upper = record {
  start = 100;
  stop = 16383;
  master = address_of (codes "b") 1;
  replicas = address_of (codes "a") 2 ∷ [];
}

abbrev lower : SlotRange
lower = record { start = 0; stop = 99; master = address_of (codes "a") 1; replicas = [] }

abbrev slots_reply : Values
slots_reply =
    cons
      (RespValue.array (
        cons (RespValue.integer (pos 100)) (
          cons (RespValue.integer (pos 16383))
            (cons (node_of (codes "b") 1) (cons (node_of (codes "a") 2) nil)))))
      (cons
        (RespValue.array (
          cons (RespValue.integer (pos 0))
            (cons (RespValue.integer (pos 99)) (cons (node_of (codes "a") 1) nil))))
        nil)

text_hosts : (is_utf8 (codes "a") ≡ true) × (is_utf8 (codes "b") ≡ true)
unfolding is_utf8
text_hosts = (refl, refl)

from_cluster_slots-SlotTexts_example :
    (map : SlotMap) × (from_cluster_slots (RespValue.array slots_reply) ≡ ok map)
    × (range_for_slot 5000 map ≡ some upper)
from_cluster_slots-SlotTexts_example =
    from_cluster_slots-SlotTexts 0 upper 5000
      (next_slots (omega arith) (omega arith) (node_text (text_hosts.1))
        (next_node (node_text (text_hosts.0)) no_nodes)
        (next_slots (omega arith) (omega arith) (node_text (text_hosts.0)) no_nodes no_slots))
      (omega arith, (omega arith, tt)) ((inr (omega arith), tt), (tt, tt)) refl
      (omega arith, omega arith)

finds_low : range_for_slot 5 two_nodes ≡ some low
unfolding range_for_slot range_index search place
finds_low = refl

master_for_slot-update_slot_master_example :
    master_for_slot 5 (update_slot_master 5 (codes "c:1") two_nodes) ≡ some (codes "c:1")
master_for_slot-update_slot_master_example =
    master_for_slot-update_slot_master 5 (codes "c:1") two_nodes low finds_low

abbrev get_args : List Bytes
get_args = codes "{k}1" ∷ []

abbrev eval_args : List Bytes
eval_args = codes "return 1" ∷ codes "1" ∷ codes "{k}2" ∷ []

get_key : extract_key (codes "set" ∷ get_args) ≡ some (codes "{k}1")
unfolding extract_key to_ascii_uppercase
get_key = refl

script_key : extract_key (codes "EVAL" ∷ eval_args) ≡ some (codes "{k}2")
unfolding extract_key to_ascii_uppercase eval_key parse_uint
script_key = refl

one_class : is_read_only_command (codes "set") ≡ is_read_only_command (codes "EVAL")
unfolding is_read_only_command to_ascii_uppercase
one_class = refl

first_tag : HashTag (codes "{k}1") (codes "k")
first_tag = tagged [] (codes "k") (codes "1") tt (ground arith) (λ e. cc)

second_tag : HashTag (codes "{k}2") (codes "k")
second_tag = tagged [] (codes "k") (codes "2") tt (ground arith) (λ e. cc)

target_node-HashTag_example :
    target_node true two_nodes (codes "set") get_args
    ≡ target_node true two_nodes (codes "EVAL") eval_args
target_node-HashTag_example =
    target_node-HashTag true two_nodes (codes "set") get_args (codes "EVAL") eval_args get_key
      script_key first_tag second_tag one_class

-- Every node sends every command on to the same node. The state counts the commands.
abbrev circle : Nodes
circle = record {
  State = ℕ;
  acquire = λ addr s. (ok tt, s);
  exchange = λ addr args s. (ok (RespValue.error (codes "MOVED 5 a:1")), suc s);
}

abbrev at_start : Router circle
at_start = record { slot_map = two_nodes; nodes = 0 }

execute_on_bound_example :
    (execute_on circle 5 (codes "a:1") get_args at_start).1.nodes ≤ 0 + (5 + 2)
execute_on_bound_example =
    execute_on_bound circle (λ s. s) (λ addr s. refl) (λ addr args s. omega arith) 5 (codes "a:1")
      get_args at_start
