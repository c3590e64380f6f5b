-- ===== src/Cluster/Pipeline/Tests.antt =====
-- A pipeline over a master and its replica, whose groups are sent in the opposite order.
use pyrsedis.Prelude.{
  ◌≡◌, ◌≢◌, refl, List, [], ◌∷◌, ◌++◌, Bytes, codes, All, All-append, map, ℕ, inl, inr,
}
use pyrsedis.Cluster.{SlotMap, range_for_slot, range_index, search, place}
use pyrsedis.Prelude.{true}
use pyrsedis.Crc16.{hash_slot, crc16, crc16_from, extract_hash_tag}
use pyrsedis.Text.{to_ascii_uppercase}
use pyrsedis.Cluster.{replica_for_slot, pick_replica}
use pyrsedis.Cluster.Keys.{extract_key, target_node, node_for_slot, is_read_only_command}
use pyrsedis.Cluster.Pipeline.{Pipes, Placed, Groups, cluster_pipeline, target_of}
use pyrsedis.Cluster.Pipeline.Groups.{HasGroup}
use pyrsedis.Cluster.Pipeline.Order.{Serves, Rearranges, cluster_pipeline-map}
use pyrsedis.Cluster.Redirects.{Nodes, Router}
use pyrsedis.Outcome.{Outcome, ok, panic}
use pyrsedis.Resp.Types.{RespValue}

-- One queue of replies, in which each node answers with its own address.
abbrev one_queue : Nodes
one_queue = record {
  State = List RespValue;
  acquire = λ addr s. (ok tt, []);
  exchange = λ addr args s. (ok (RespValue.bulk_string addr), s);
}

abbrev queue_pipes : Pipes one_queue
queue_pipes = record {
  send = λ addr cmd s. (ok tt, s ++ (RespValue.bulk_string addr ∷ []));
  receive = pop;
}
  where
    pop : Bytes → List RespValue → Outcome RespValue × List RespValue
    pop addr [] = (panic, [])
    pop addr (v ∷ vs) = (ok v, vs)

abbrev answer : Bytes → List Bytes → RespValue
answer addr cmd = RespValue.bulk_string addr

queue-Serves : Serves one_queue queue_pipes answer
queue-Serves = record {
  pending = λ s addr. s;
  acquires = λ addr s. ([], refl, refl);
  sends = λ addr cmd s. (s ++ (RespValue.bulk_string addr ∷ []), refl, refl);
  receives = λ addr s v vs h. (vs, rw h refl, refl);
  no_errors = λ addr cmd msg e. cc;
}

-- The groups from the last to the first.
abbrev backwards : Groups → Groups
backwards [] = []
backwards (g ∷ groups) = backwards groups ++ (g ∷ [])

backwards-All :
    (P : Bytes × List Placed → Type 0) (groups : Groups) → All P groups → All P (backwards groups)
backwards-All P [] h = tt
backwards-All P (g ∷ groups) (h, hs) =
    All-append P (backwards groups) (g ∷ []) (backwards-All P groups hs) (h, tt)

first-HasGroup : (i : ℕ) (g h : Groups) → HasGroup i g → HasGroup i (g ++ h)
first-HasGroup i [] h e = absurd e
first-HasGroup i ((addr, group) ∷ g) h (inl e) = inl e
first-HasGroup i ((addr, group) ∷ g) h (inr e) = inr (first-HasGroup i g h e)

second-HasGroup : (i : ℕ) (g h : Groups) → HasGroup i h → HasGroup i (g ++ h)
second-HasGroup i [] h e = e
second-HasGroup i ((addr, group) ∷ g) h e = inr (second-HasGroup i g h e)

backwards-HasGroup : (i : ℕ) (groups : Groups) → HasGroup i groups → HasGroup i (backwards groups)
backwards-HasGroup i [] h = h
backwards-HasGroup i ((addr, group) ∷ groups) (inl h) =
    second-HasGroup i (backwards groups) ((addr, group) ∷ []) (inl h)
backwards-HasGroup i ((addr, group) ∷ groups) (inr h) =
    first-HasGroup i (backwards groups) ((addr, group) ∷ []) (backwards-HasGroup i groups h)

backwards-Rearranges : Rearranges backwards
backwards-Rearranges = record { all = backwards-All; each = backwards-HasGroup }

abbrev two_nodes : SlotMap
two_nodes =
    record { start = 0; stop = 99; master = codes "a:1"; replicas = codes "r:1" ∷ [] }
    ∷ record { start = 100; stop = 16383; master = codes "b:1"; replicas = [] }
    ∷ []

abbrev some_commands : List (List Bytes)
some_commands = (codes "PING" ∷ []) ∷ (codes "GET" ∷ [] ∷ []) ∷ (codes "INFO" ∷ []) ∷ []

to_a : target_of true two_nodes (codes "PING" ∷ []) ≡ codes "a:1"
unfolding target_of target_node extract_key to_ascii_uppercase
to_a = refl

to_r : target_of true two_nodes (codes "GET" ∷ [] ∷ []) ≡ codes "r:1"
unfolding target_of target_node extract_key to_ascii_uppercase node_for_slot is_read_only_command
    replica_for_slot range_for_slot range_index search place pick_replica hash_slot crc16 crc16_from
    extract_hash_tag
to_r = refl

also_to_a : target_of true two_nodes (codes "INFO" ∷ []) ≡ codes "a:1"
unfolding target_of target_node extract_key to_ascii_uppercase
also_to_a = refl

abbrev at_start : Router one_queue
at_start = record { slot_map = two_nodes; nodes = [] }

all_routed : All (λ cmd. target_of true two_nodes cmd ≢ []) some_commands
all_routed =
    ((λ e. let a = to_a in cc), ((λ e. let r = to_r in cc), ((λ e. let a = also_to_a in cc), tt)))

cluster_pipeline-map_example :
    (w' : Router one_queue) × (cluster_pipeline one_queue queue_pipes true backwards some_commands
        at_start
      ≡ (ok (map (λ cmd. answer (target_of true two_nodes cmd) cmd) some_commands), w'))
cluster_pipeline-map_example =
    cluster_pipeline-map one_queue queue_pipes answer queue-Serves true backwards some_commands
      at_start backwards-Rearranges all_routed
