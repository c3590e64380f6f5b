-- ===== src/Client/Pipeline.antt =====
-- src/client.rs: the class Pipeline.
use pyrsedis.Prelude.{ℕ, Bool, List, [], ◌∷◌, ◌++◌, Bytes, length}
use pyrsedis.Client.{Redis, settings_of}
use pyrsedis.Client.Calls.{Ran, returned, block_on, convert_raw}
use pyrsedis.Connection.{Connection}
use pyrsedis.Connection.Buffer.{BytesMut}
use pyrsedis.Connection.Pool.{Pool}
use pyrsedis.External.{External}
use pyrsedis.Outcome.{Outcome}
use pyrsedis.Response.Python.{Python, PyResult, done, ◌>>=◌}
use pyrsedis.Standalone.{Peer, pipeline_raw}

-- Pipeline, whose router is that of the client.
pub record Pipeline : Type 0 where
  pub commands : List (List Bytes)
  pub decode_responses : Bool

-- Redis::pipeline.
unfoldable pub new_pipeline : Redis → Pipeline
new_pipeline r = record { commands = []; decode_responses = r.decode_responses }

-- `slf.commands.push(args)`: execute_command, and the end of every other method.
unfoldable pub push_command : List Bytes → Pipeline → Pipeline
push_command args p = record {
  commands = p.commands ++ (args ∷ []);
  decode_responses = p.decode_responses;
}

unfoldable pub reset : Pipeline → Pipeline
reset p = record { commands = []; decode_responses = p.decode_responses }

unfoldable pub len : Pipeline → ℕ
len p = length p.commands

-- The closure over the replies, and collect.
unfoldable pub convert_each :
    (py : Python) → External → Bool → List Bytes → PyResult (List py.PyAny)
convert_each py x decode [] = done []
convert_each py x decode (raw ∷ raws) = do
  obj ← convert_raw py x decode raw
  objs ← convert_each py x decode raws
  done (obj ∷ objs)

module _ (m : BytesMut) (py : Python) (x : External) (r : Redis) (now : ℕ)
    (connected : Outcome (Connection m)) (peer : Peer) where
  unfoldable pub execute_commands : Bool → List (List Bytes) → Pool (Connection m) → Ran m py.PyAny
  execute_commands decode [] pool = returned (done (py.list [])) pool
  execute_commands decode (cmd ∷ cmds) pool =
      block_on m (pipeline_raw m x (settings_of r.config) now connected peer (cmd ∷ cmds) pool)
        (λ raws. convert_each py x decode raws >>= λ items. done (py.list items))

  -- execute: its commands are taken, whatever the call comes to.
  unfoldable pub execute_pipeline : Pipeline → Pool (Connection m) → Ran m py.PyAny × Pipeline
  execute_pipeline p pool = (execute_commands p.decode_responses p.commands pool, reset p)
