-- ===== src/Sentinel.antt =====
-- src/router/sentinel.rs: the master as the sentinels know it, and the retries of a command. The
-- network is a parameter.
pub mod Pipeline
pub mod Retries
pub mod Sends
mod Tests
use Prim.Native.String.{String}
use pyrsedis.Prelude.{
  ℕ, zero, suc, ◌+◌, Bool, true, false, Option, none, some, List, [], ◌∷◌, ◌++◌, Bytes, codes,
  bytes_eq, if◌then◌else◌,
}
use pyrsedis.Error.{
  PyrsedisError, connection, sentinel, redis_error, invalid_master_host, invalid_master_port,
  master_not_found, unexpected_reply, no_sentinel_answer,
}
use pyrsedis.Outcome.{Outcome, ok, fail, panic, stuck}
use pyrsedis.Resp.Types.{RespValue, Values, nil, cons, as_str, type_name}
use pyrsedis.Text.{starts_with}

-- A connection from the pool of the master at an address, a command sent on it, and its reply; and
-- the question to a sentinel, which may not be reached.
pub record Network : Type 1 where
  pub State : Type 0
  pub acquire : Bytes → State → Outcome (Unit {0}) × State
  pub send : Bytes → List Bytes → State → Outcome (Unit {0}) × State
  pub read : Bytes → State → Outcome RespValue × State
  pub ask_sentinel : Bytes → Bytes → State → Outcome RespValue × State

-- The host and the port of a reply of two elements or more.
unfoldable pub address_of : RespValue → RespValue → Outcome Bytes
address_of host port = elim (as_str host) [
  | none ↦ fail (sentinel invalid_master_host)
  | some h ↦ elim (as_str port) [
    | none ↦ fail (sentinel invalid_master_port)
    | some p ↦ ok (h ++ b':' ∷ p)
  ]
]

-- What one sentinel's answer comes to: the end of the search, or the error to remember.
pub data Answer : Type 0 where
  settled : Outcome Bytes → Answer
  missing : PyrsedisError → Answer

unfoldable pub answer_of : Bytes → Outcome RespValue → Answer
answer_of name (ok (RespValue.array (cons host (cons port rest)))) = settled (address_of host port)
answer_of name (ok RespValue.null) = missing (sentinel (master_not_found name))
answer_of name (ok other) = missing (sentinel (unexpected_reply (type_name other)))
answer_of name (fail e) = missing e
answer_of name panic = settled panic
answer_of name stuck = settled stuck

module _ (net : Network) where
  -- The loop over the sentinels, with the last error.
  unfoldable pub resolve_from :
      Bytes → PyrsedisError → List Bytes → net.State → Outcome Bytes × net.State
  resolve_from name last_err [] s = (fail last_err, s)
  resolve_from name last_err (addr ∷ sentinels) s =
      let (reply, s') = net.ask_sentinel addr name s in
      elim (answer_of name reply) [
        | settled r ↦ (r, s')
        | missing e ↦ resolve_from name e sentinels s'
      ]

  unfoldable pub resolve_master : List Bytes → Bytes → net.State → Outcome Bytes × net.State
  resolve_master sentinels name s = resolve_from name (sentinel no_sentinel_answer) sentinels s

  -- The address of the master, in whose pool the connections are, and what does not change.
  pub record SentinelRouter : Type 0 where
    pub master_addr : Bytes
    pub sentinels : List Bytes
    pub master_name : Bytes
    pub network : net.State

  abbrev pub with_network : net.State → SentinelRouter → SentinelRouter
  with_network s w = record {
    master_addr = w.master_addr;
    sentinels = w.sentinels;
    master_name = w.master_name;
    network = s;
  }

  unfoldable pub new_master :
      Outcome Bytes × net.State → SentinelRouter → Outcome (Unit {0}) × SentinelRouter
  new_master (ok new_addr, s) w = (
    ok tt,
    record {
      master_addr = if bytes_eq new_addr w.master_addr then w.master_addr else new_addr;
      sentinels = w.sentinels;
      master_name = w.master_name;
      network = s;
    },
  )
  new_master (fail e, s) w = (fail e, with_network s w)
  new_master (panic, s) w = (panic, with_network s w)
  new_master (stuck, s) w = (stuck, with_network s w)

  unfoldable pub failover : SentinelRouter → Outcome (Unit {0}) × SentinelRouter
  failover w = new_master (resolve_master w.sentinels w.master_name w.network) w

  -- One run of the loop: it returns, or it remembers an error and goes on.
  pub data Attempt : Type 0 where
    returns : Outcome RespValue → Attempt
    retries : PyrsedisError → Attempt

  unfoldable pub is_read_only : RespValue → Bool
  is_read_only (RespValue.error msg) = starts_with (codes "READONLY") msg
  is_read_only other = false

  unfoldable pub error_text : RespValue → Bytes
  error_text (RespValue.error msg) = msg
  error_text other = []

  unfoldable pub on_read : Outcome RespValue → Attempt
  on_read (ok resp) =
      if is_read_only resp then retries (redis_error (error_text resp)) else returns (ok resp)
  on_read (fail (connection m)) = retries (connection m)
  on_read (fail e) = returns (fail e)
  on_read panic = returns panic
  on_read stuck = returns stuck

  unfoldable pub on_sent : Bytes → Outcome (Unit {0}) × net.State → Attempt × net.State
  on_sent addr (ok u, s) = let (reply, s') = net.read addr s in (on_read reply, s')
  on_sent addr (fail e, s) = (retries e, s)
  on_sent addr (panic, s) = (returns panic, s)
  on_sent addr (stuck, s) = (returns stuck, s)

  unfoldable pub on_acquired :
      Bytes → List Bytes → Outcome (Unit {0}) × net.State → Attempt × net.State
  on_acquired addr args (ok u, s) = on_sent addr (net.send addr args s)
  on_acquired addr args (fail e, s) = (retries e, s)
  on_acquired addr args (panic, s) = (returns panic, s)
  on_acquired addr args (stuck, s) = (returns stuck, s)

  unfoldable pub attempt : List Bytes → SentinelRouter → Attempt × SentinelRouter
  attempt args w =
      let (r, s) = on_acquired w.master_addr args (net.acquire w.master_addr w.network) in
      (r, with_network s w)

  abbrev pub Task : Type 0
  Task = SentinelRouter → Outcome RespValue × SentinelRouter

  -- `again` is the rest of the loop, from the error to remember.
  unfoldable pub after_attempt :
      (PyrsedisError → Task) → Attempt × SentinelRouter → Outcome RespValue × SentinelRouter
  after_attempt again (returns r, w) = (r, w)
  after_attempt again (retries e, w) = again e w

  unfoldable pub after_failover :
      List Bytes
      → (PyrsedisError → Task)
      → Outcome (Unit {0}) × SentinelRouter
      → Outcome RespValue × SentinelRouter
  after_failover args again (ok u, w) = after_attempt again (attempt args w)
  after_failover args again (fail e, w) = again e w
  after_failover args again (panic, w) = (panic, w)
  after_failover args again (stuck, w) = (stuck, w)

  -- The runs after the first, each with a failover before it.
  unfoldable pub retry : ℕ → List Bytes → PyrsedisError → Task
  retry zero args last_err w = (fail last_err, w)
  retry (suc left) args last_err w = after_failover args (retry left args) (failover w)

  -- `0..=retry_count`: one run, and as many more as retries. There is a last error whenever they are
  -- used up.
  unfoldable pub execute_with_retry : ℕ → List Bytes → Task
  execute_with_retry retry_count args w = after_attempt (retry retry_count args) (attempt args w)
