-- ===== src/Client/Calls.antt =====
-- src/client.rs: the methods of the class Redis, from the call of the router to the Python object. The
-- pool of the router is their state.
use pyrsedis.Prelude.{
  ℕ, Bool, ◌&&◌, List, [], ◌∷◌, Bytes, codes, bytes_eq, length, take, leb, if◌then◌else◌,
}
use pyrsedis.Client.{
  Redis, Command, on_basic, on_hash, on_list, on_set, on_sorted_set, on_key, on_graph, on_server,
  on_any, settings_of,
}
use pyrsedis.Client.Basic.{BasicCommand, redis_basic}
use pyrsedis.Client.Hashes.{redis_hash}
use pyrsedis.Client.Lists.{redis_list}
use pyrsedis.Client.Sets.{redis_set}
use pyrsedis.Client.SortedSets.{redis_sorted_set}
use pyrsedis.Client.Keys.{redis_key}
use pyrsedis.Client.Graphs.{redis_graph}
use pyrsedis.Client.Servers.{redis_server}
use pyrsedis.Connection.{Connection}
use pyrsedis.Connection.Buffer.{BytesMut}
use pyrsedis.Connection.Pool.{Pool}
use pyrsedis.Error.{type_error, no_command}
use pyrsedis.External.{External}
use pyrsedis.Outcome.{Outcome}
use pyrsedis.Response.Fused.{parse_to_python}
use pyrsedis.Response.Python.{Python, PyResult, done, raised, from_error, lift, ◌>>=◌}
use pyrsedis.Standalone.{Peer, Call, ended, no_permit, no_reply, execute_raw}

module _ (m : BytesMut) where
  -- A call that returns or raises, with the pool that it leaves, or that waits.
  pub data Ran (A : Type 0) : Type 0 where
    returned : PyResult A → Pool (Connection m) → Ran A
    waits : Ran A

  -- `runtime::block_on(…).map_err(…)?`, and what becomes of the replies.
  unfoldable pub block_on : {A B : Type 0} → Call m A → (A → PyResult B) → Ran B
  block_on (ended r pool) use_reply = returned (lift r >>= use_reply) pool
  block_on no_permit use_reply = waits
  block_on (no_reply pool) use_reply = waits

-- `let (obj, _) = parse_to_python(…)?; Ok(obj)`.
unfoldable pub convert_raw : (py : Python) → External → Bool → Bytes → PyResult py.PyAny
convert_raw py x decode raw = parse_to_python py x raw decode >>= λ p. done p.0

-- `+PONG`.
unfoldable pub is_pong_reply : Bytes → Bool
is_pong_reply raw = leb 5 (length raw) && bytes_eq (take 5 raw) (codes "+PONG")

-- None for a null bulk string, and whether the reply is +OK.
unfoldable pub set_reply : (py : Python) → Bytes → py.PyAny
set_reply py raw =
    if leb 4 (length raw) && bytes_eq (take 2 raw) (codes "$-")
    then py.nothing
    else py.bool (leb 3 (length raw) && bytes_eq (take 3 raw) (codes "+OK"))

module _ (m : BytesMut) (py : Python) (x : External) (r : Redis) (now : ℕ)
    (connected : Outcome (Connection m)) (peer : Peer) where
  unfoldable pub send : List Bytes → Pool (Connection m) → Call m Bytes
  send args pool = execute_raw m x (settings_of r.config) now connected peer args pool

  unfoldable pub exec_raw : List Bytes → Pool (Connection m) → Ran m py.PyAny
  exec_raw args pool = block_on m (send args pool) (convert_raw py x r.decode_responses)

  unfoldable pub execute_command : List Bytes → Pool (Connection m) → Ran m py.PyAny
  execute_command [] pool = returned (raised (from_error (type_error no_command))) pool
  execute_command (arg ∷ args) pool = exec_raw (arg ∷ args) pool

  unfoldable pub run_ping : Pool (Connection m) → Ran m py.PyAny
  run_ping pool =
      block_on m (send (codes "PING" ∷ []) pool) (λ raw. done (py.bool (is_pong_reply raw)))

  unfoldable pub run_set : List Bytes → Pool (Connection m) → Ran m py.PyAny
  run_set cmd pool = block_on m (send cmd pool) (λ raw. done (set_reply py raw))

  unfoldable pub run_basic : BasicCommand → Pool (Connection m) → Ran m py.PyAny
  run_basic BasicCommand.ping pool = run_ping pool
  run_basic (BasicCommand.set name value ex px nx xx) pool =
      run_set (redis_basic x (BasicCommand.set name value ex px nx xx)) pool
  run_basic c pool = exec_raw (redis_basic x c) pool

  -- A method of Redis.
  unfoldable pub run : Command → Pool (Connection m) → Ran m py.PyAny
  run (on_basic c) pool = run_basic c pool
  run (on_hash c) pool = exec_raw (redis_hash x c) pool
  run (on_list c) pool = exec_raw (redis_list x c) pool
  run (on_set c) pool = exec_raw (redis_set x c) pool
  run (on_sorted_set c) pool = exec_raw (redis_sorted_set x c) pool
  run (on_key c) pool = exec_raw (redis_key x c) pool
  run (on_graph c) pool = exec_raw (redis_graph x c) pool
  run (on_server c) pool = exec_raw (redis_server x c) pool
  run (on_any args) pool = execute_command args pool
