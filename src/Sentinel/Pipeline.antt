-- ===== src/Sentinel/Pipeline.antt =====
-- src/router/sentinel.rs: pipeline, on the pool of the current master.
use pyrsedis.Prelude.{ℕ, List, [], ◌∷◌, ◌++◌, Bytes, length}
use pyrsedis.Connection.{Read, Connection, Reply, answered, at_time}
use pyrsedis.Connection.Buffer.{BytesMut}
use pyrsedis.Connection.Pool.{Settings, Pool}
use pyrsedis.Connection.Replies.{read_responses}
use pyrsedis.External.{External}
use pyrsedis.Outcome.{Outcome, ok, fail, panic, stuck, ◌>>=◌}
use pyrsedis.Resp.Types.{RespValue}
use pyrsedis.Resp.Writer.{encode_command_str}
use pyrsedis.Standalone.{Peer, Call, guarded}

module _ (m : BytesMut) (x : External) (now : ℕ) (peer : Peer) where
  -- The loop that sends: the events that each write brings, up to the first that fails, and the
  -- connection with the time of the last that does not.
  unfoldable pub send_each : List (List Bytes) → Connection m → Outcome (List Read) × Connection m
  send_each [] c = (ok [], c)
  send_each (cmd ∷ cmds) c =
      let later = send_each cmds (at_time m now c) in
      elim (peer (encode_command_str x cmd)) [
        | ok es ↦ (later.0 >>= λ more. ok (es ++ more), later.1)
        | fail e ↦ (fail e, c)
        | panic ↦ (panic, c)
        | stuck ↦ (stuck, c)
      ]

  unfoldable pub read_sent : ℕ → Outcome (List Read) × Connection m → Reply m (List RespValue)
  read_sent n (ok es, c) = read_responses m x now n c es
  read_sent n (fail e, c) = answered (fail e) c []
  read_sent n (panic, c) = answered panic c []
  read_sent n (stuck, c) = answered stuck c []

  unfoldable pub sentinel_pipeline :
      Settings
      → Outcome (Connection m)
      → List (List Bytes)
      → Pool (Connection m)
      → Call m (List RespValue)
  sentinel_pipeline settings connected commands pool =
      guarded m settings now connected (λ c. read_sent (length commands) (send_each commands c))
        pool
