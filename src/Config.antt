-- ===== src/Config.antt =====
-- src/config.rs: how a Redis URL becomes a configuration. A function of the sources that changes the
-- configuration in place returns it here.
pub mod Address
pub mod Standalone
mod Tests
use pyrsedis.Prelude.{
  ℕ, ◌+◌, ◌*◌, Bool, true, false, Option, none, some, List, [], ◌∷◌, ◌++◌, Bytes, codes, position,
  take, drop, bytes_eq, ◌==◌, ◌||◌, if◌then◌else◌,
}
use pyrsedis.Error.{
  PyrsedisError, Message, protocol, missing_scheme, unknown_scheme, invalid_db, invalid_port,
  unclosed_bracket, no_master_name, no_master_after_credentials, empty_master_name, no_sentinels,
  no_nodes,
}
use pyrsedis.Outcome.{Outcome, ok, fail, panic, stuck, ◌>>=◌, ◌>>◌, refuse, ok_or}
use pyrsedis.Text.{strip_prefix, split_once, rsplit_once, contains, occurrences, split}
use pyrsedis.Text.Decimal.{to_string}
use pyrsedis.Text.Number.{parse_uint, u16_max}
use pyrsedis.Text.Space.{trim}

abbrev pub default_port : ℕ
default_port = 6379

abbrev pub default_sentinel_port : ℕ
default_sentinel_port = 26379

-- A host and a port.
abbrev pub Address : Type 0
Address = Bytes × ℕ

pub data Topology : Type 0 where
  standalone : Topology
  sentinel : Bytes → List Address → Topology
  cluster : List Address → Topology

pub record ConnectionConfig : Type 0 where
  pub host : Bytes
  pub port : ℕ
  pub username : Option Bytes
  pub password : Option Bytes
  pub db : ℕ
  pub tls : Bool
  pub topology : Topology
  pub pool_size : ℕ
  pub connect_timeout_ms : ℕ
  pub read_timeout_ms : ℕ
  pub idle_timeout_ms : ℕ
  pub max_buffer_size : ℕ

unfoldable pub default : ConnectionConfig
default = record {
  host = codes "127.0.0.1";
  port = default_port;
  username = none;
  password = none;
  db = 0;
  tls = false;
  topology = standalone;
  pool_size = 8;
  connect_timeout_ms = 5000;
  read_timeout_ms = 30000;
  idle_timeout_ms = 300000;
  max_buffer_size = 64 * 1024 * 1024;
}

unfoldable pub split_path : Bytes → Bytes × Option Bytes
split_path rest = elim (split_once b'/' rest) [
  | none ↦ (rest, none)
  | some (before, after) ↦ elim after [ [] ↦ (before, none) | c ∷ s ↦ (before, some (c ∷ s)) ]
]

-- `if !s.is_empty() { *field = Some(s) }`.
unfoldable pub set_filled : Bytes → Option Bytes → Option Bytes
set_filled [] old = old
set_filled (c ∷ s) old = some (c ∷ s)

unfoldable pub with_credentials : Option Bytes → Option Bytes → ConnectionConfig → ConnectionConfig
with_credentials username password config = record {
  host = config.host;
  port = config.port;
  username = username;
  password = password;
  db = config.db;
  tls = config.tls;
  topology = config.topology;
  pool_size = config.pool_size;
  connect_timeout_ms = config.connect_timeout_ms;
  read_timeout_ms = config.read_timeout_ms;
  idle_timeout_ms = config.idle_timeout_ms;
  max_buffer_size = config.max_buffer_size;
}

unfoldable pub parse_userinfo : Bytes → ConnectionConfig → ConnectionConfig
parse_userinfo userinfo config = elim (split_once b':' userinfo) [
  | some (user, pass) ↦
      with_credentials (set_filled user config.username) (set_filled pass config.password) config
  | none ↦ with_credentials config.username (set_filled userinfo config.password) config
]

-- The end of parse_host_port.
unfoldable pub or_localhost : Bytes → ℕ → Address
or_localhost [] port = (codes "127.0.0.1", port)
or_localhost (c ∷ host) port = (c ∷ host, port)

-- What stands behind the closing bracket.
unfoldable pub after_bracket : Bytes → Bytes → ℕ → Outcome Address
after_bracket host after default_to = elim (strip_prefix (b':' ∷ []) after) [
  | none ↦ ok (or_localhost host default_to)
  | some port_str ↦ elim (parse_uint u16_max port_str) [
    | none ↦ fail (protocol (invalid_port port_str))
    | some port ↦ ok (or_localhost host port)
  ]
]

-- `[ipv6]` and an optional port, behind the opening bracket.
unfoldable pub parse_bracketed : Bytes → Bytes → ℕ → Outcome Address
parse_bracketed s inner default_to = do
  close ← ok_or (position b']' inner) (protocol (unclosed_bracket s))
  after_bracket (take close inner) (drop (close + 1) inner) default_to

unfoldable pub parse_plain : Bytes → ℕ → Outcome Address
parse_plain s default_to = elim (rsplit_once b':' s) [
  | none ↦ ok (or_localhost s default_to)
  | some (h, p) ↦ elim (parse_uint u16_max p) [
    | some port ↦ ok (or_localhost h port)
    | none ↦
        if contains b':' h then ok (or_localhost s default_to) else fail (protocol (invalid_port p))
  ]
]

unfoldable pub parse_host_port : Bytes → ℕ → Outcome Address
parse_host_port [] default_to = parse_plain [] default_to
parse_host_port (c ∷ s) default_to =
    if c == b'[' then parse_bracketed (c ∷ s) s default_to else parse_plain (c ∷ s) default_to

unfoldable pub parse_db : Option Bytes → ℕ → Outcome ℕ
parse_db none old = ok old
parse_db (some db_str) old = ok_or (parse_uint u16_max db_str) (protocol (invalid_db db_str))

-- The configuration with what the parts of a URL set.
unfoldable pub with_target : Address → ℕ → Topology → ConnectionConfig → ConnectionConfig
with_target address db topology config = record {
  host = address.0;
  port = address.1;
  username = config.username;
  password = config.password;
  db = db;
  tls = config.tls;
  topology = topology;
  pool_size = config.pool_size;
  connect_timeout_ms = config.connect_timeout_ms;
  read_timeout_ms = config.read_timeout_ms;
  idle_timeout_ms = config.idle_timeout_ms;
  max_buffer_size = config.max_buffer_size;
}

-- `[user:pass@]` in front of the hosts: the last `@` ends it.
unfoldable pub split_userinfo : Bytes → ConnectionConfig → ConnectionConfig × Bytes
split_userinfo host_part config = elim (rsplit_once b'@' host_part) [
  | none ↦ (config, host_part)
  | some (userinfo, hosts) ↦ (parse_userinfo userinfo config, hosts)
]

unfoldable pub parse_standalone_url : Bytes → ConnectionConfig → Outcome ConnectionConfig
parse_standalone_url rest config =
    let (host_part, db_part) = split_path rest in
    let (config', hosts) = split_userinfo host_part config in
    do
      db ← parse_db db_part config.db
      address ← parse_host_port hosts default_port
      ok (with_target address db config.topology config')

-- The loop over the parts of a list of hosts; a part of white space alone is skipped.
unfoldable pub parse_addresses : ℕ → List Bytes → Outcome (List Address)
parse_addresses default_to [] = ok []
parse_addresses default_to (part ∷ parts) = elim (trim part) [
  | [] ↦ parse_addresses default_to parts
  | c ∷ s ↦ do
    address ← parse_host_port (c ∷ s) default_to
    addresses ← parse_addresses default_to parts
    ok (address ∷ addresses)
]

-- The first `@` of a sentinel URL ends the credentials where there are two, and the master's name
-- where there is one.
unfoldable pub split_master : Bytes → ConnectionConfig → Outcome (ConnectionConfig × Bytes × Bytes)
split_master host_part config = elim (split_once b'@' host_part) [
  | none ↦ fail (protocol no_master_name)
  | some (before, after) ↦
      if occurrences b'@' host_part == 1
      then ok (config, before, after)
      else elim (split_once b'@' after) [
        | none ↦ fail (protocol no_master_after_credentials)
        | some (name, hosts) ↦ ok (parse_userinfo before config, name, hosts)
      ]
]

unfoldable pub first_target :
    Message → List Address → ℕ → Topology → ConnectionConfig → Outcome ConnectionConfig
first_target message [] db topology config = fail (protocol message)
first_target message (address ∷ addresses) db topology config =
    ok (with_target address db topology config)

unfoldable pub parse_sentinel_url : Bytes → ConnectionConfig → Outcome ConnectionConfig
parse_sentinel_url rest config =
    let (host_part, db_part) = split_path rest in
    do
      db ← parse_db db_part config.db
      (config', master_name, hosts) ← split_master host_part config
      refuse (bytes_eq master_name []) (protocol empty_master_name)
      sentinels ← parse_addresses default_sentinel_port (split b',' hosts)
      first_target no_sentinels sentinels db (sentinel master_name sentinels) config'

unfoldable pub parse_cluster_url : Bytes → ConnectionConfig → Outcome ConnectionConfig
parse_cluster_url rest config =
    let (host_part, db_part) = split_path rest in
    let (config', hosts) = split_userinfo host_part config in
    do
      db ← parse_db db_part config.db
      nodes ← parse_addresses default_port (split b',' hosts)
      first_target no_nodes nodes db (cluster nodes) config'

unfoldable pub with_tls : Bool → ConnectionConfig → ConnectionConfig
with_tls tls config = record {
  host = config.host;
  port = config.port;
  username = config.username;
  password = config.password;
  db = config.db;
  tls = tls;
  topology = config.topology;
  pool_size = config.pool_size;
  connect_timeout_ms = config.connect_timeout_ms;
  read_timeout_ms = config.read_timeout_ms;
  idle_timeout_ms = config.idle_timeout_ms;
  max_buffer_size = config.max_buffer_size;
}

-- `url.split_once("://")`.
unfoldable pub split_scheme : Bytes → Option (Bytes × Bytes)
split_scheme [] = none
split_scheme (c ∷ s) =
    let later : Option (Bytes × Bytes) = elim (split_scheme s) [
      | none ↦ none
      | some (scheme, rest) ↦ some (c ∷ scheme, rest)
    ] in
    elim (strip_prefix (codes "://") (c ∷ s)) [ some rest ↦ some ([], rest) | none ↦ later ]

unfoldable pub parse_scheme : Bytes → Bytes → Outcome ConnectionConfig
parse_scheme scheme rest =
    if bytes_eq scheme (codes "redis")
    then parse_standalone_url rest default
    else if bytes_eq scheme (codes "rediss")
    then parse_standalone_url rest (with_tls true default)
    else if bytes_eq scheme (codes "redis+sentinel")
    then parse_sentinel_url rest (with_tls false default)
    else if bytes_eq scheme (codes "redis+sentinels")
    then parse_sentinel_url rest (with_tls true default)
    else if bytes_eq scheme (codes "redis+cluster")
    then parse_cluster_url rest (with_tls false default)
    else if bytes_eq scheme (codes "rediss+cluster")
    then parse_cluster_url rest (with_tls true default)
    else fail (protocol (unknown_scheme scheme))

unfoldable pub from_url : Bytes → Outcome ConnectionConfig
from_url url = elim (split_scheme url) [
  | none ↦ fail (protocol (missing_scheme url))
  | some (scheme, rest) ↦ parse_scheme scheme rest
]

unfoldable pub primary_addr : ConnectionConfig → Bytes
primary_addr config = config.host ++ b':' ∷ to_string config.port
