-- ===== src/Standalone.antt =====
-- src/router/standalone.rs: the router to one server. A call gets a connection from the pool, sends
-- what it has encoded and reads the replies; the guard gives the connection back at its end. What
-- connecting comes to and what the server sends are parameters of a call.
pub mod Permits
mod Tests
use pyrsedis.Prelude.{ℕ, zero, suc, List, [], ◌∷◌, Bytes, length, Option, none, some}
use pyrsedis.Connection.{
  Read, Connection, Reply, answered, waiting, at_time, read_response, read_raw_response,
}
use pyrsedis.Connection.Buffer.{BytesMut}
use pyrsedis.Connection.Pool.{
  Settings, Pool, take_healthy_connection, granted, create_connection, finish_get, drop_guard,
}
use pyrsedis.Connection.Replies.{read_responses, read_raw_responses}
use pyrsedis.External.{External}
use pyrsedis.Outcome.{Outcome, ok, fail, panic, stuck}
use pyrsedis.Resp.Types.{RespValue}
use pyrsedis.Resp.Writer.{encode_command_str, encode_pipeline}

-- What the socket yields after some bytes are written to it, or the error of the write.
abbrev pub Peer : Type 0
Peer = Bytes → Outcome (List Read)

module _ (m : BytesMut) where
  -- A call that has ended, with the pool that it leaves, or that waits: for a permit, or for a reply.
  pub data Call (A : Type 0) : Type 0 where
    ended : Outcome A → Pool (Connection m) → Call A
    no_permit : Call A
    no_reply : Pool (Connection m) → Call A

  -- ConnectionPool::get, where nothing else happens to the pool meanwhile.
  unfoldable pub get_connection :
      Settings
      → ℕ
      → Outcome (Connection m)
      → Option (Connection m) × List (Connection m)
      → ℕ
      → Pool (Connection m)
      → Outcome (Connection m) × Pool (Connection m)
  get_connection settings now connected (some c, idle) permits pool =
      (ok c, granted permits (some c, idle) pool)
  get_connection settings now connected (none, idle) permits pool = (
    create_connection settings connected,
    finish_get settings connected (granted permits (none, idle) pool),
  )

  -- send_raw, and the reading of what comes back.
  unfoldable pub send_raw :
      {A : Type 0}
      → ℕ
      → Bytes
      → Peer
      → (Connection m → List Read → Reply m A)
      → Connection m
      → Reply m A
  send_raw now bytes peer read c = elim (peer bytes) [
    | ok es ↦ read (at_time m now c) es
    | fail e ↦ answered (fail e) c []
    | panic ↦ answered panic c []
    | stuck ↦ answered stuck c []
  ]

  -- The end of a call: the guard that it holds is the last that the pool has given.
  unfoldable pub end_call :
      {A : Type 0} → Settings → ℕ → List (Connection m) → Reply m A → Pool (Connection m) → Call A
  end_call settings now others (answered r c es) pool =
      ended r (drop_guard (λ c. c.last_used) settings now c others pool)
  end_call settings now others (waiting c) pool = no_reply pool

  unfoldable pub with_guard :
      {A : Type 0}
      → Settings
      → ℕ
      → List (Connection m)
      → (Connection m → Reply m A)
      → Outcome (Connection m) × Pool (Connection m)
      → Call A
  with_guard settings now others work (ok c, pool) = end_call settings now others (work c) pool
  with_guard settings now others work (fail e, pool) = ended (fail e) pool
  with_guard settings now others work (panic, pool) = ended panic pool
  with_guard settings now others work (stuck, pool) = ended stuck pool

  -- `let mut guard = self.pool.get().await?`, what is done with it, and its end.
  unfoldable pub guarded :
      {A : Type 0}
      → Settings
      → ℕ
      → Outcome (Connection m)
      → (Connection m → Reply m A)
      → Pool (Connection m)
      → Call A
  guarded settings now connected work pool = elim pool.permits [
    | zero ↦ no_permit
    | suc permits ↦ with_guard settings now pool.guards work (
        get_connection settings now connected
          (take_healthy_connection (λ c. c.last_used) settings now pool.idle) permits pool)
  ]

  module _ (x : External) (settings : Settings) (now : ℕ) (connected : Outcome (Connection m))
      (peer : Peer) where
    unfoldable pub execute_raw : List Bytes → Pool (Connection m) → Call Bytes
    execute_raw args pool =
        guarded settings now connected
          (send_raw now (encode_command_str x args) peer (read_raw_response m x now)) pool

    unfoldable pub pipeline_raw : List (List Bytes) → Pool (Connection m) → Call (List Bytes)
    pipeline_raw commands pool =
        guarded settings now connected
          (send_raw now (encode_pipeline x commands) peer
            (read_raw_responses m x now (length commands)))
          pool

    unfoldable pub execute : List Bytes → Pool (Connection m) → Call RespValue
    execute args pool =
        guarded settings now connected
          (send_raw now (encode_command_str x args) peer (read_response m x now)) pool

    unfoldable pub pipeline : List (List Bytes) → Pool (Connection m) → Call (List RespValue)
    pipeline commands pool =
        guarded settings now connected
          (send_raw now (encode_pipeline x commands) peer
            (read_responses m x now (length commands)))
          pool
