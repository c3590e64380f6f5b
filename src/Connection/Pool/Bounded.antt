-- ===== src/Connection/Pool/Bounded.antt =====
-- src/connection/pool.rs: the runs of a pool as steps, and the bound on its connections.
use pyrsedis.Prelude.{
  ℕ, zero, suc, ◌+◌, ◌≤◌, ◌<◌, ◌≡◌, refl, false, Option, none, some, List, ◌∷◌, ◌++◌, length,
  length-append, subst, ap, ◌∙◌, sym, lt→ltb, arith,
}
use pyrsedis.Connection.Pool.{
  Settings, is_stale, take_healthy_connection, return_connection, Pool, new, granted,
  create_connection, end_get, finish_get, take_guard, use_guard, start_get, drop_guard,
}
use pyrsedis.Connection.Pool.Reuse.{Takes, nothing, healthy, take_healthy_connection-Takes}
use pyrsedis.Outcome.{Outcome, ok, fail, panic, stuck}

module _ {C : Type 0} (last_used : C → ℕ) (settings : Settings) where
  -- One step of the tasks that share the pool, in any order.
  pub data Step : Pool C → Pool C → Type 0 where
    gets :
        {pool pool' : Pool C} (now : ℕ)
        → start_get last_used settings now pool ≡ some pool'
        → Step pool pool'
    connects :
        {pool : Pool C} (connected : Outcome C)
        → 0 < pool.connecting
        → Step pool (finish_get settings connected pool)
    drops :
        {pool : Pool C} (now : ℕ) (front : List C) (conn : C) (back : List C)
        → pool.guards ≡ front ++ conn ∷ back
        → Step pool (drop_guard last_used settings now conn (front ++ back) pool)
    uses :
        {pool : Pool C} (front : List C) (conn conn' : C) (back : List C)
        → pool.guards ≡ front ++ conn ∷ back
        → Step pool (use_guard front conn' back pool)
    takes :
        {pool : Pool C} (front : List C) (conn : C) (back : List C)
        → pool.guards ≡ front ++ conn ∷ back
        → Step pool (take_guard (front ++ back) pool)

  pub data Reachable : Pool C → Type 0 where
    start : Reachable (new settings)
    next : {pool pool' : Pool C} → Reachable pool → Step pool pool' → Reachable pool'

  -- Every permit is free or in use, and the connections that are open or being opened are no more
  -- than the size of the pool, those that are idle included.
  pub record Bounded (pool : Pool C) : Type 0 where
    pub permits_count : pool.permits + pool.connecting + length pool.guards ≡ settings.max_size
    pub open_bound : length pool.idle + pool.connecting + length pool.guards ≤ settings.max_size

  return_bound :
      (now : ℕ) (conn : C) (idle : List C)
      → length (return_connection last_used settings now conn idle) ≤ suc (length idle)
  unfolding return_connection
  return_bound now conn idle = ground arith

  Shorter : List C → Option C × List C → Type 0
  Shorter idle (none, rest) = length rest ≡ 0
  Shorter idle (some conn, rest) = suc (length rest) ≤ length idle

  Takes-Shorter :
      {now : ℕ} {idle : List C} {r : Option C × List C}
      → Takes last_used settings now idle r
      → Shorter idle r
  unfolding Shorter
  Takes-Shorter (nothing h) = refl
  Takes-Shorter (healthy {conn} {rest} skipped hs fresh) =
      omega (arith, length-append skipped (conn ∷ rest))

  granted-Bounded :
      (permits : ℕ) (pool : Pool C) (r : Option C × List C)
      → pool.permits ≡ suc permits
      → Bounded pool
      → Shorter pool.idle r
      → Bounded (granted permits r pool)
  unfolding granted Shorter
  granted-Bounded permits pool (none, rest) e b h = record {
    permits_count = omega (arith, b.permits_count);
    open_bound = omega (arith, b.permits_count);
  }
  granted-Bounded permits pool (some conn, rest) e b h = record {
    permits_count = omega (arith, b.permits_count);
    open_bound = omega (arith, b.open_bound);
  }

  start_get-Bounded :
      (now : ℕ) (pool : Pool C) {pool' : Pool C}
      → Bounded pool
      → start_get last_used settings now pool ≡ some pool'
      → Bounded pool'
  unfolding start_get
  start_get-Bounded now pool b e = go pool.permits refl e
    where
      found : Option C × List C
      found = take_healthy_connection last_used settings now pool.idle

      go :
          {pool' : Pool C} (n : ℕ)
          → pool.permits ≡ n
          → (elim n as (λ _. Option (Pool C)) [
            | zero ↦ none
            | suc permits ↦ some (granted permits found pool)
          ])
            ≡ some pool'
          → Bounded pool'
      go zero h e' = cc
      go (suc permits) h e' = subst Bounded (cc) (
          granted-Bounded permits pool found h b
            (Takes-Shorter (take_healthy_connection-Takes last_used settings now pool.idle)))

  end_get-Bounded :
      (r : Outcome C) (pool : Pool C)
      → 0 < pool.connecting
      → Bounded pool
      → Bounded (end_get r pool)
  unfolding end_get
  end_get-Bounded (ok conn) pool h b = record {
    permits_count = omega (arith, b.permits_count);
    open_bound = omega (arith, b.open_bound);
  }
  end_get-Bounded (fail e) pool h b = record {
    permits_count = omega (arith, b.permits_count);
    open_bound = omega (arith, b.open_bound);
  }
  end_get-Bounded panic pool h b = b
  end_get-Bounded stuck pool h b = b

  finish_get-Bounded :
      (connected : Outcome C) (pool : Pool C)
      → 0 < pool.connecting
      → Bounded pool
      → Bounded (finish_get settings connected pool)
  unfolding finish_get
  finish_get-Bounded connected pool = end_get-Bounded (create_connection settings connected) pool

  fewer :
      (front : List C) (conn : C) (back : List C)
      → length (front ++ conn ∷ back) ≡ suc (length (front ++ back))
  fewer front conn back = omega (arith, length-append front (conn ∷ back), length-append front back)

  -- A step keeps the bounds.
  Step-Bounded : {pool pool' : Pool C} → Step pool pool' → Bounded pool → Bounded pool'
  unfolding drop_guard take_guard use_guard
  Step-Bounded (gets {pool} now e) b = start_get-Bounded now pool b e
  Step-Bounded (connects {pool} connected h) b = finish_get-Bounded connected pool h b
  Step-Bounded (drops {pool} now front conn back e) b =
      let size : length pool.guards ≡ suc (length (front ++ back)) =
        ap length e ∙ fewer front conn back in
      record {
        permits_count = omega (arith, b.permits_count, size);
        open_bound = omega (arith, b.open_bound, size, return_bound now conn pool.idle);
      }
  Step-Bounded (uses {pool} front conn conn' back e) b =
      let same : length pool.guards ≡ length (front ++ conn' ∷ back) =
        ap length e ∙ fewer front conn back ∙ sym (fewer front conn' back) in
      record {
        permits_count = omega (arith, b.permits_count, same);
        open_bound = omega (arith, b.open_bound, same);
      }
  Step-Bounded (takes {pool} front conn back e) b =
      let size : length pool.guards ≡ suc (length (front ++ back)) =
        ap length e ∙ fewer front conn back in
      record {
        permits_count = omega (arith, b.permits_count, size);
        open_bound = omega (arith, b.open_bound, size);
      }

  -- In every run of the tasks that share a pool, in any order of their steps, all permits are free or
  -- in use, and the connections that are idle, held or being opened are together no more than the
  -- size of the pool.
  pub Reachable-Bounded : {pool : Pool C} → Reachable pool → Bounded pool
  unfolding new
  Reachable-Bounded start = record { permits_count = omega arith; open_bound = omega arith }
  Reachable-Bounded (next r s) = Step-Bounded s (Reachable-Bounded r)

  -- In every run, a guard that is dropped with a connection that is not stale puts it into the queue:
  -- the queue is never full then.
  pub drop_guard-Reachable :
      {pool : Pool C}
      → Reachable pool
      → (now : ℕ) (front : List C) (conn : C) (back : List C) → pool.guards ≡ front ++ conn ∷ back
      → is_stale last_used settings now conn ≡ false
      → (drop_guard last_used settings now conn (front ++ back) pool).idle ≡ conn ∷ pool.idle
  unfolding drop_guard return_connection
  drop_guard-Reachable {pool} r now front conn back e fresh =
      let b = Reachable-Bounded r in
      let size : length pool.guards ≡ suc (length (front ++ back)) =
        ap length e ∙ fewer front conn back in
      let roomy : length pool.idle < settings.max_size = omega (arith, b.open_bound, size) in
      rw (fresh, lt→ltb (length pool.idle) settings.max_size roomy)
