-- ===== src/Client.antt =====
-- src/client.rs: the class Redis and its commands. Its arguments come from Python: strings as their
-- bytes, floats as their 64 bits, a dict as the list of its items.
pub mod Args
pub mod Basic
pub mod Hashes
pub mod Lists
pub mod Sets
pub mod SortedSets
pub mod Keys
pub mod Graphs
pub mod Servers
pub mod Calls
pub mod Pipeline
pub mod Texts
pub mod Answers
mod Tests
use pyrsedis.Prelude.{
  ℕ, ◌≡◌, refl, ap, ◌⊎◌, inl, inr, Bool, false, Option, none, some, List, [], ◌∷◌, Bytes, ◌==◌,
}
use pyrsedis.Client.Args.{SameArgs}
use pyrsedis.Client.Basic.{BasicCommand, redis_basic, pipeline_basic, pipeline_basic-SameArgs}
use pyrsedis.Client.Hashes.{HashCommand, redis_hash, pipeline_hash, pipeline_hash-SameArgs}
use pyrsedis.Client.Lists.{ListCommand, redis_list, pipeline_list, pipeline_list-SameArgs}
use pyrsedis.Client.Sets.{SetCommand, redis_set, pipeline_set, pipeline_set-SameArgs}
use pyrsedis.Client.SortedSets.{
  SortedSetCommand, redis_sorted_set, pipeline_sorted_set, pipeline_sorted_set-SameArgs,
}
use pyrsedis.Client.Keys.{KeyCommand, redis_key, pipeline_key, pipeline_key-SameArgs}
use pyrsedis.Client.Graphs.{GraphCommand, redis_graph, pipeline_graph, pipeline_graph-SameArgs}
use pyrsedis.Client.Servers.{ServerCommand, redis_server, pipeline_server, pipeline_server-SameArgs}
use pyrsedis.Config.{ConnectionConfig, Topology, standalone, from_url, primary_addr}
use pyrsedis.Connection.Pool.{Settings}
use pyrsedis.Error.{type_error, no_command, zero_pool_size}
use pyrsedis.External.{External}
use pyrsedis.Outcome.{Outcome, ok, fail, panic, stuck, ◌>>=◌, ◌>>◌, refuse}

-- A call of a method with its arguments.
pub data Command : Type 0 where
  on_basic : BasicCommand → Command
  on_hash : HashCommand → Command
  on_list : ListCommand → Command
  on_set : SetCommand → Command
  on_sorted_set : SortedSetCommand → Command
  on_key : KeyCommand → Command
  on_graph : GraphCommand → Command
  on_server : ServerCommand → Command
  on_any : List Bytes → Command

module _ (x : External) where
  -- What the method of Redis sends; execute_command refuses to send nothing.
  unfoldable pub redis_args : Command → Outcome (List Bytes)
  redis_args (on_basic c) = ok (redis_basic x c)
  redis_args (on_hash c) = ok (redis_hash x c)
  redis_args (on_list c) = ok (redis_list x c)
  redis_args (on_set c) = ok (redis_set x c)
  redis_args (on_sorted_set c) = ok (redis_sorted_set x c)
  redis_args (on_key c) = ok (redis_key x c)
  redis_args (on_graph c) = ok (redis_graph x c)
  redis_args (on_server c) = ok (redis_server x c)
  redis_args (on_any []) = fail (type_error no_command)
  redis_args (on_any (arg ∷ args)) = ok (arg ∷ args)

  -- What the method of Pipeline pushes, where Pipeline has it.
  unfoldable pub pipeline_args : Command → Option (List Bytes)
  pipeline_args (on_basic c) = pipeline_basic x c
  pipeline_args (on_hash c) = pipeline_hash x c
  pipeline_args (on_list c) = pipeline_list x c
  pipeline_args (on_set c) = pipeline_set x c
  pipeline_args (on_sorted_set c) = pipeline_sorted_set x c
  pipeline_args (on_key c) = pipeline_key x c
  pipeline_args (on_graph c) = pipeline_graph x c
  pipeline_args (on_server c) = pipeline_server x c
  pipeline_args (on_any args) = some args

  SameArgs-same :
      (found : Option (List Bytes)) {args cmd : List Bytes}
      → SameArgs found args
      → found ≡ some cmd
      → args ≡ cmd
  unfolding SameArgs
  SameArgs-same none h e = cc
  SameArgs-same (some cmd') h e = cc

  -- Whatever a method of Pipeline pushes, the method of Redis with that name sends the same arguments
  -- for it, save that execute_command without arguments is pushed as an empty command by Pipeline and
  -- refused with a TypeError by Redis.
  pub pipeline_args-redis_args :
      (c : Command) {cmd : List Bytes}
      → pipeline_args c ≡ some cmd
      → (redis_args c ≡ ok cmd)
        ⊎ ((c ≡ on_any []) × (cmd ≡ []) × (redis_args c ≡ fail (type_error no_command)))
  unfolding pipeline_args redis_args
  pipeline_args-redis_args (on_basic c) e =
      inl (ap ok (SameArgs-same (pipeline_basic x c) (pipeline_basic-SameArgs x c) e))
  pipeline_args-redis_args (on_hash c) e =
      inl (ap ok (SameArgs-same (pipeline_hash x c) (pipeline_hash-SameArgs x c) e))
  pipeline_args-redis_args (on_list c) e =
      inl (ap ok (SameArgs-same (pipeline_list x c) (pipeline_list-SameArgs x c) e))
  pipeline_args-redis_args (on_set c) e =
      inl (ap ok (SameArgs-same (pipeline_set x c) (pipeline_set-SameArgs x c) e))
  pipeline_args-redis_args (on_sorted_set c) e =
      inl (ap ok (SameArgs-same (pipeline_sorted_set x c) (pipeline_sorted_set-SameArgs x c) e))
  pipeline_args-redis_args (on_key c) e =
      inl (ap ok (SameArgs-same (pipeline_key x c) (pipeline_key-SameArgs x c) e))
  pipeline_args-redis_args (on_graph c) e =
      inl (ap ok (SameArgs-same (pipeline_graph x c) (pipeline_graph-SameArgs x c) e))
  pipeline_args-redis_args (on_server c) e =
      inl (ap ok (SameArgs-same (pipeline_server x c) (pipeline_server-SameArgs x c) e))
  pipeline_args-redis_args (on_any []) {cmd} e = let same : cmd ≡ [] = cc in inr (refl, same, refl)
  pipeline_args-redis_args (on_any (arg ∷ args)) {cmd} e =
      let same : arg ∷ args ≡ cmd = cc in inl (ap ok same)

-- Redis; its router is the configuration and a pool, which is the state of the calls.
pub record Redis : Type 0 where
  pub config : ConnectionConfig
  pub addr : Bytes
  pub decode_responses : Bool

unfoldable pub new_redis :
    Bytes → ℕ → ℕ → Option Bytes → Option Bytes → ℕ → ℕ → ℕ → ℕ → ℕ → Bool → Outcome Redis
new_redis host port db password username pool_size connect_timeout_ms read_timeout_ms
      idle_timeout_ms max_buffer_size decode_responses =
    let config : ConnectionConfig = record {
      host = host;
      port = port;
      username = username;
      password = password;
      db = db;
      tls = false;
      topology = standalone;
      pool_size = pool_size;
      connect_timeout_ms = connect_timeout_ms;
      read_timeout_ms = read_timeout_ms;
      idle_timeout_ms = idle_timeout_ms;
      max_buffer_size = max_buffer_size;
    } in
    refuse (pool_size == 0) (type_error zero_pool_size)
    >> ok (record {
      config = config;
      addr = primary_addr config;
      decode_responses = decode_responses;
    })

-- The staticmethod from_url.
unfoldable pub redis_from_url : Bytes → ℕ → ℕ → ℕ → ℕ → Bool → Outcome Redis
redis_from_url url pool_size connect_timeout_ms read_timeout_ms idle_timeout_ms decode_responses =
    from_url url >>= λ (parsed : ConnectionConfig).
    (let config : ConnectionConfig = record {
      host = parsed.host;
      port = parsed.port;
      username = parsed.username;
      password = parsed.password;
      db = parsed.db;
      tls = parsed.tls;
      topology = parsed.topology;
      pool_size = pool_size;
      connect_timeout_ms = connect_timeout_ms;
      read_timeout_ms = read_timeout_ms;
      idle_timeout_ms = idle_timeout_ms;
      max_buffer_size = parsed.max_buffer_size;
    } in
      ok (record {
        config = config;
        addr = primary_addr config;
        decode_responses = decode_responses;
      }))

-- ConnectionPool::new, the part that is taken from the configuration.
unfoldable pub settings_of : ConnectionConfig → Settings
settings_of config = record {
  max_size = config.pool_size;
  idle_timeout = config.idle_timeout_ms;
  tls = config.tls;
}
