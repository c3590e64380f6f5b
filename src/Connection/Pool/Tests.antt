-- ===== src/Connection/Pool/Tests.antt =====
-- A run of a pool of two connections, and the theorems at its states.
use pyrsedis.Prelude.{ℕ, ◌≡◌, refl, false, some, [], ◌∷◌, ◌++◌}
use pyrsedis.Connection.Pool.{
  Settings, Pool, new, start_get, finish_get, end_get, create_connection, drop_guard, granted,
  take_healthy_connection, is_stale, return_connection,
}
use pyrsedis.Connection.Pool.Bounded.{
  gets, connects, Reachable, start, next, Bounded, Reachable-Bounded, drop_guard-Reachable,
}
use pyrsedis.Connection.Pool.Reuse.{
  Takes, take_healthy_connection-Takes, take_healthy_connection-return_connection,
}
use pyrsedis.Outcome.{ok}
use pyrsedis.Prelude.{arith}

abbrev two : Settings
two = record { max_size = 2; idle_timeout = 10; tls = false }

-- A connection is the time of its last use.
abbrev time : ℕ → ℕ
time t = t

abbrev opening : Pool ℕ
opening = record { idle = []; permits = 1; connecting = 1; guards = [] }

abbrev held : Pool ℕ
held = record { idle = []; permits = 1; connecting = 0; guards = 5 ∷ [] }

opens : Reachable time two opening
unfolding new start_get granted take_healthy_connection
opens = next start (gets 4 refl)

holds_one : Reachable time two held
unfolding finish_get end_get create_connection
holds_one = next opens (connects (ok 5) (omega arith))

Reachable-Bounded_example : Bounded time two held
Reachable-Bounded_example = Reachable-Bounded time two holds_one

is_fresh : is_stale time two 6 5 ≡ false
unfolding is_stale
is_fresh = refl

drop_guard-Reachable_example : (drop_guard time two 6 5 ([] ++ []) held).idle ≡ 5 ∷ []
drop_guard-Reachable_example = drop_guard-Reachable time two holds_one 6 [] 5 [] refl is_fresh

take_healthy_connection-Takes_example :
    Takes time two 20 (3 ∷ 15 ∷ 2 ∷ []) (take_healthy_connection time two 20 (3 ∷ 15 ∷ 2 ∷ []))
take_healthy_connection-Takes_example = take_healthy_connection-Takes time two 20 (3 ∷ 15 ∷ 2 ∷ [])

skips_the_stale : take_healthy_connection time two 20 (3 ∷ 15 ∷ 2 ∷ []) ≡ (some 15, 2 ∷ [])
unfolding take_healthy_connection is_stale
skips_the_stale = refl

take_healthy_connection-return_connection_example :
    take_healthy_connection time two 6 (return_connection time two 6 5 (1 ∷ [])) ≡ (some 5, 1 ∷ [])
take_healthy_connection-return_connection_example =
    take_healthy_connection-return_connection time two 6 5 (1 ∷ []) is_fresh (omega arith)
