-- ===== src/Cluster/Keys.antt =====
-- src/router/cluster.rs: the key of a command, and the node that a command is routed to.
use pyrsedis.Prelude.{
  ℕ, ◌-◌, ◌^◌, ◌≡◌, Bool, false, ◌&&◌, ◌||◌, Option, none, some, List, [], ◌∷◌, Bytes, codes,
  get_elem?, ltb, bytes_eq, if◌then◌else◌,
}
use pyrsedis.Cluster.{SlotMap, master_for_slot, replica_for_slot}
use pyrsedis.Crc16.{hash_slot}
use pyrsedis.Crc16.Slots.{HashTag, hash_slot-HashTag}
use pyrsedis.Text.{to_ascii_uppercase}
use pyrsedis.Text.Number.{parse_uint}

abbrev one_of : Bytes → List Bytes → Bool
one_of s [] = false
one_of s (t ∷ ts) = bytes_eq s t || one_of s ts

-- The commands that can go to a replica.
abbrev pub read_only_commands : List Bytes
read_only_commands =
    codes "GET"
    ∷ codes "MGET"
    ∷ codes "KEYS"
    ∷ codes "SCAN"
    ∷ codes "TYPE"
    ∷ codes "TTL"
    ∷ codes "PTTL"
    ∷ codes "EXISTS"
    ∷ codes "STRLEN"
    ∷ codes "GETRANGE"
    ∷ codes "SUBSTR"
    ∷ codes "HGET"
    ∷ codes "HMGET"
    ∷ codes "HGETALL"
    ∷ codes "HKEYS"
    ∷ codes "HVALS"
    ∷ codes "HLEN"
    ∷ codes "HEXISTS"
    ∷ codes "HSCAN"
    ∷ codes "HRANDFIELD"
    ∷ codes "LRANGE"
    ∷ codes "LLEN"
    ∷ codes "LINDEX"
    ∷ codes "LPOS"
    ∷ codes "SMEMBERS"
    ∷ codes "SCARD"
    ∷ codes "SISMEMBER"
    ∷ codes "SMISMEMBER"
    ∷ codes "SRANDMEMBER"
    ∷ codes "SSCAN"
    ∷ codes "SUNION"
    ∷ codes "SINTER"
    ∷ codes "SDIFF"
    ∷ codes "ZRANGE"
    ∷ codes "ZRANGEBYSCORE"
    ∷ codes "ZRANGEBYLEX"
    ∷ codes "ZREVRANGE"
    ∷ codes "ZREVRANGEBYSCORE"
    ∷ codes "ZREVRANGEBYLEX"
    ∷ codes "ZCARD"
    ∷ codes "ZSCORE"
    ∷ codes "ZMSCORE"
    ∷ codes "ZCOUNT"
    ∷ codes "ZLEXCOUNT"
    ∷ codes "ZRANK"
    ∷ codes "ZREVRANK"
    ∷ codes "ZRANDMEMBER"
    ∷ codes "ZSCAN"
    ∷ codes "XRANGE"
    ∷ codes "XREVRANGE"
    ∷ codes "XLEN"
    ∷ codes "XREAD"
    ∷ codes "XINFO"
    ∷ codes "OBJECT"
    ∷ codes "DEBUG"
    ∷ codes "BITCOUNT"
    ∷ codes "BITPOS"
    ∷ codes "GETBIT"
    ∷ codes "PFCOUNT"
    ∷ codes "GEODIST"
    ∷ codes "GEOHASH"
    ∷ codes "GEOPOS"
    ∷ codes "GEORADIUS_RO"
    ∷ codes "GEORADIUSBYMEMBER_RO"
    ∷ codes "GEOSEARCH"
    ∷ codes "GRAPH.RO_QUERY"
    ∷ []

unfoldable pub is_read_only_command : Bytes → Bool
is_read_only_command cmd = one_of (to_ascii_uppercase cmd) read_only_commands

abbrev pub keyless_commands : List Bytes
keyless_commands =
    codes "PING"
    ∷ codes "INFO"
    ∷ codes "DBSIZE"
    ∷ codes "CLUSTER"
    ∷ codes "CONFIG"
    ∷ codes "CLIENT"
    ∷ codes "COMMAND"
    ∷ codes "TIME"
    ∷ codes "RANDOMKEY"
    ∷ codes "WAIT"
    ∷ codes "SAVE"
    ∷ codes "BGSAVE"
    ∷ codes "BGREWRITEAOF"
    ∷ codes "FLUSHALL"
    ∷ codes "FLUSHDB"
    ∷ codes "LASTSAVE"
    ∷ codes "SLOWLOG"
    ∷ codes "DEBUG"
    ∷ codes "MULTI"
    ∷ codes "EXEC"
    ∷ codes "DISCARD"
    ∷ codes "SCRIPT"
    ∷ codes "SUBSCRIBE"
    ∷ codes "UNSUBSCRIBE"
    ∷ codes "PSUBSCRIBE"
    ∷ codes "PUNSUBSCRIBE"
    ∷ codes "QUIT"
    ∷ []

abbrev usize_max : ℕ
usize_max = 2 ^ 64 - 1

-- EVAL script numkeys key.
unfoldable pub eval_key : List Bytes → Option Bytes
eval_key args = elim (get_elem? args 3) [
  | none ↦ none
  | some key ↦ elim (get_elem? args 2) [
    | none ↦ none
    | some count ↦ elim (parse_uint usize_max count) [
      | none ↦ none
      | some numkeys ↦ if ltb 0 numkeys then some key else none
    ]
  ]
]

-- The argument behind the first STREAMS that has one.
unfoldable pub streams_key : List Bytes → Option Bytes
streams_key [] = none
streams_key (arg ∷ []) = none
streams_key (arg ∷ next ∷ args) =
    let rest = streams_key (next ∷ args) in
    if bytes_eq (to_ascii_uppercase arg) (codes "STREAMS") then some next else rest

unfoldable pub extract_key : List Bytes → Option Bytes
extract_key [] = none
extract_key (name ∷ args) =
    let cmd = to_ascii_uppercase name in
    if one_of cmd keyless_commands
    then none
    else if bytes_eq cmd (codes "EVAL") || bytes_eq cmd (codes "EVALSHA")
    then eval_key (name ∷ args)
    else if bytes_eq cmd (codes "XREAD") || bytes_eq cmd (codes "XREADGROUP")
    then streams_key (name ∷ args)
    else get_elem? (name ∷ args) 1

-- `unwrap_or`, `unwrap_or_default`.
abbrev or_else : Option Bytes → Bytes → Bytes
or_else none d = d
or_else (some a) d = a

abbrev pub first_master : SlotMap → Bytes
first_master [] = []
first_master (r ∷ ranges) = r.master

unfoldable pub node_for_slot : Bool → Bool → SlotMap → ℕ → Bytes
node_for_slot is_read read_from_replicas ranges slot =
    if is_read && read_from_replicas
    then or_else (replica_for_slot slot ranges) (or_else (master_for_slot slot ranges) [])
    else or_else (master_for_slot slot ranges) []

-- The target of execute_routed, and of `pipeline` for each command: no text where there is no node.
unfoldable pub target_node : Bool → SlotMap → Bytes → List Bytes → Bytes
target_node read_from_replicas ranges name args = elim (extract_key (name ∷ args)) [
  | none ↦ first_master ranges
  | some key ↦ node_for_slot (is_read_only_command name) read_from_replicas ranges (hash_slot key)
]

target_node-key :
    (read_from_replicas : Bool) (ranges : SlotMap) (name : Bytes) (args : List Bytes) {key : Bytes}
    → extract_key (name ∷ args) ≡ some key
    → target_node read_from_replicas ranges name args
      ≡ node_for_slot (is_read_only_command name) read_from_replicas ranges (hash_slot key)
unfolding target_node
target_node-key r ranges name args e = rw (target_node, e)

-- Two commands of one class, both read-only or neither, whose keys have the same hash tag are routed
-- to the same node.
pub target_node-HashTag :
    (read_from_replicas : Bool) (ranges : SlotMap) (name : Bytes) (args : List Bytes)
    (other : Bytes) (others : List Bytes) {key key' tag : Bytes}
    → extract_key (name ∷ args) ≡ some key
    → extract_key (other ∷ others) ≡ some key'
    → HashTag key tag
    → HashTag key' tag
    → is_read_only_command name ≡ is_read_only_command other
    → target_node read_from_replicas ranges name args
      ≡ target_node read_from_replicas ranges other others
target_node-HashTag r ranges name args other others e e' h h' same = rw (
  target_node-key r ranges name args e,
  target_node-key r ranges other others e',
  same,
  (hash_slot-HashTag h h').0,
)
