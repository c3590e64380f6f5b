-- ===== src/Connection/Pool.antt =====
-- src/connection/pool.rs: the idle queue and the semaphore. A call of `get` gives up control while it
-- connects, so that it is two steps here: its start, up to the connection found or wanted, and the
-- end of the connecting. The connections are of any type with the time of their last use.
pub mod Bounded
pub mod Reuse
mod Tests
use pyrsedis.Prelude.{
  ℕ, zero, suc, ◌+◌, ◌-◌, Bool, Option, none, some, List, [], ◌∷◌, ◌++◌, length, ltb, if◌then◌else◌,
}
use pyrsedis.Error.{PyrsedisError, protocol, tls_unsupported}
use pyrsedis.Outcome.{Outcome, ok, fail, panic, stuck}

-- What a pool takes from its configuration.
pub record Settings : Type 0 where
  pub max_size : ℕ
  pub idle_timeout : ℕ
  pub tls : Bool

module _ {C : Type 0} (last_used : C → ℕ) (settings : Settings) where
  -- `conn.last_used.elapsed() > self.idle_timeout`.
  unfoldable pub is_stale : ℕ → C → Bool
  is_stale now conn = ltb settings.idle_timeout (now - last_used conn)

  -- The back of the queue is the front of the list.
  unfoldable pub take_healthy_connection : ℕ → List C → Option C × List C
  take_healthy_connection now [] = (none, [])
  take_healthy_connection now (conn ∷ idle) =
      let rest = take_healthy_connection now idle in
      if is_stale now conn then rest else (some conn, idle)

  unfoldable pub return_connection : ℕ → C → List C → List C
  return_connection now conn idle =
      if is_stale now conn
      then idle
      else if ltb (length idle) settings.max_size
      then conn ∷ idle
      else idle

-- The queue, the permits left, the calls of `get` that are connecting, and the connections that
-- guards hold.
pub record Pool (C : Type 0) : Type 0 where
  pub idle : List C
  pub permits : ℕ
  pub connecting : ℕ
  pub guards : List C

module _ {C : Type 0} where
  unfoldable pub new : Settings → Pool C
  new settings = record { idle = []; permits = settings.max_size; connecting = 0; guards = [] }

  unfoldable pub available : Pool C → ℕ
  available pool = pool.permits

  unfoldable pub idle_count : Pool C → ℕ
  idle_count pool = length pool.idle

  -- With a permit and what the queue gave.
  unfoldable pub granted : ℕ → Option C × List C → Pool C → Pool C
  granted permits (some conn, idle) pool = record {
    idle = idle;
    permits = permits;
    connecting = pool.connecting;
    guards = conn ∷ pool.guards;
  }
  granted permits (none, idle) pool = record {
    idle = idle;
    permits = permits;
    connecting = suc pool.connecting;
    guards = pool.guards;
  }

  -- create_connection, from what connecting and `init` come to.
  unfoldable pub create_connection : Settings → Outcome C → Outcome C
  create_connection settings connected =
      if settings.tls then fail (protocol tls_unsupported) else connected

  -- The end of `get`: the guard, or the error, with which the permit is given back.
  unfoldable pub end_get : Outcome C → Pool C → Pool C
  end_get (ok conn) pool = record {
    idle = pool.idle;
    permits = pool.permits;
    connecting = pool.connecting - 1;
    guards = conn ∷ pool.guards;
  }
  end_get (fail e) pool = record {
    idle = pool.idle;
    permits = suc pool.permits;
    connecting = pool.connecting - 1;
    guards = pool.guards;
  }
  end_get panic pool = pool
  end_get stuck pool = pool

  unfoldable pub finish_get : Settings → Outcome C → Pool C → Pool C
  finish_get settings connected pool = end_get (create_connection settings connected) pool

  -- PoolGuard::conn: what is done with the connection of a guard changes it.
  unfoldable pub use_guard : List C → C → List C → Pool C → Pool C
  use_guard front conn back pool = record {
    idle = pool.idle;
    permits = pool.permits;
    connecting = pool.connecting;
    guards = front ++ conn ∷ back;
  }

  -- PoolGuard::take: the connection leaves the pool, and its permit does not.
  unfoldable pub take_guard : List C → Pool C → Pool C
  take_guard others pool = record {
    idle = pool.idle;
    permits = suc pool.permits;
    connecting = pool.connecting;
    guards = others;
  }

module _ {C : Type 0} (last_used : C → ℕ) (settings : Settings) where
  -- The start of `get`: without a permit it waits.
  unfoldable pub start_get : ℕ → Pool C → Option (Pool C)
  start_get now pool = elim pool.permits [
    | zero ↦ none
    | suc permits ↦
        some (granted permits (take_healthy_connection last_used settings now pool.idle) pool)
  ]

  -- The end of a guard, where the other guards hold `others`.
  unfoldable pub drop_guard : ℕ → C → List C → Pool C → Pool C
  drop_guard now conn others pool = record {
    idle = return_connection last_used settings now conn pool.idle;
    permits = suc pool.permits;
    connecting = pool.connecting;
    guards = others;
  }
