-- ===== src/Standalone/Permits.antt =====
-- src/router/standalone.rs: what a call leaves of the pool of src/connection/pool.rs.
use pyrsedis.Prelude.{
  ℕ, zero, suc, ◌≡◌, ◌≢◌, refl, ◌∙◌, List, [], ◌∷◌, Option, none, some, ap, sym, Bool-cases, inl,
  inr,
}
use pyrsedis.Connection.{Connection, Reply, answered, waiting}
use pyrsedis.Connection.Buffer.{BytesMut}
use pyrsedis.Connection.Pool.{
  Settings, Pool, take_healthy_connection, granted, create_connection, end_get, finish_get,
  start_get, drop_guard, use_guard,
}
use pyrsedis.Connection.Pool.Bounded.{Reachable, next, gets, connects, uses, drops}
use pyrsedis.Error.{PyrsedisError, protocol, tls_unsupported}
use pyrsedis.Outcome.{Outcome, ok, fail, panic, stuck}
use pyrsedis.Prelude.{arith}
use pyrsedis.Standalone.{
  Call, ended, no_permit, no_reply, get_connection, end_call, with_guard, guarded,
}

module _ (m : BytesMut) (settings : Settings) where
  abbrev Connections : Type 0
  Connections = Pool (Connection m)

  abbrev age : Connection m → ℕ
  age c = c.last_used

  -- A call that ends gives its permit back and leaves no guard and no connecting behind. One that
  -- waits has got nothing, or still holds one guard.
  pub data Returns (pool : Connections) {A : Type 0} : Call m A → Type 0 where
    returned :
        {r : Outcome A} {after : Connections}
        → after.permits ≡ pool.permits
        → after.connecting ≡ pool.connecting
        → after.guards ≡ pool.guards
        → Reachable age settings after
        → Returns pool (ended r after)
    queued : pool.permits ≡ 0 → Returns pool no_permit
    holds :
        {after : Connections} {c : Connection m}
        → suc after.permits ≡ pool.permits
        → after.guards ≡ c ∷ pool.guards
        → Reachable age settings after
        → Returns pool (no_reply after)

  -- A pool that has given one connection.
  record Lent (pool : Connections) (c : Connection m) (lent : Connections) : Type 0 where
    permits_lent : suc lent.permits ≡ pool.permits
    connecting_lent : lent.connecting ≡ pool.connecting
    guards_lent : lent.guards ≡ c ∷ pool.guards
    reached : Reachable age settings lent

  end_call-Returns :
      {A : Type 0} {pool lent : Connections} {c : Connection m} (now : ℕ) (r : Reply m A)
      → Lent pool c lent
      → Returns pool (end_call m settings now pool.guards r lent)
  unfolding end_call drop_guard use_guard
  end_call-Returns {pool = pool} {lent} {c} now (answered r c' es) h =
      returned h.permits_lent h.connecting_lent refl (
        next (next h.reached (uses [] c c' pool.guards h.guards_lent))
          (drops now [] c' pool.guards refl))
  end_call-Returns now (waiting c') h = holds h.permits_lent h.guards_lent h.reached

  -- What a call of `get` ends with.
  data Gets (pool : Connections) : Outcome (Connection m) × Connections → Type 0 where
    lends : {c : Connection m} {lent : Connections} → Lent pool c lent → Gets pool (ok c, lent)
    refuses :
        {e : PyrsedisError} {after : Connections}
        → after.permits ≡ pool.permits
        → after.connecting ≡ pool.connecting
        → after.guards ≡ pool.guards
        → Reachable age settings after
        → Gets pool (fail e, after)

  finish_get-Gets :
      (pool started : Connections) (r : Outcome (Connection m))
      → r ≢ panic
      → r ≢ stuck
      → suc started.permits ≡ pool.permits
      → started.connecting ≡ suc pool.connecting
      → started.guards ≡ pool.guards
      → Reachable age settings (end_get r started)
      → Gets pool (r, end_get r started)
  unfolding end_get
  finish_get-Gets pool started (ok c) _ _ hp hc hg reach = lends (record {
    permits_lent = hp;
    connecting_lent = omega arith;
    guards_lent = ap (λ g. c ∷ g) hg;
    reached = reach;
  })
  finish_get-Gets pool started (fail e) _ _ hp hc hg reach = refuses hp (omega arith) hg reach
  finish_get-Gets pool started panic h _ hp hc hg reach = absurd (h refl)
  finish_get-Gets pool started stuck _ h hp hc hg reach = absurd (h refl)

  created :
      (connected : Outcome (Connection m))
      → connected ≢ panic
      → connected ≢ stuck
      → (create_connection settings connected ≢ panic)
        × (create_connection settings connected ≢ stuck)
  unfolding create_connection
  created connected h h' = elim (Bool-cases settings.tls) [
    | inl t ↦
        let refused : create_connection settings connected ≡ fail (protocol tls_unsupported) =
          rw t refl in
        (λ e. absurd (cc), λ e. absurd (cc))
    | inr t ↦
        let same : create_connection settings connected ≡ connected = rw t refl in
        (λ e. h (sym same ∙ e), λ e. h' (sym same ∙ e))
  ]

  get_connection-Gets :
      (now : ℕ) (pool : Connections) (connected : Outcome (Connection m)) (permits : ℕ)
      (found : Option (Connection m) × List (Connection m))
      → connected ≢ panic
      → connected ≢ stuck
      → pool.permits ≡ suc permits
      → Reachable age settings (granted permits found pool)
      → Gets pool (get_connection m settings now connected found permits pool)
  unfolding get_connection granted finish_get
  get_connection-Gets now pool connected permits (some c, idle) h h' e reach =
      lends (record {
        permits_lent = sym e;
        connecting_lent = refl;
        guards_lent = refl;
        reached = reach;
      })
  get_connection-Gets now pool connected permits (none, idle) h h' e reach =
      let (p, s) = created connected h h' in
      finish_get-Gets pool _ (create_connection settings connected) p s (sym e) refl refl
        (next reach (connects connected (omega arith)))

  begins :
      (now : ℕ) (pool : Connections) (permits : ℕ)
      → pool.permits ≡ suc permits
      → start_get age settings now pool
        ≡ some (granted permits (take_healthy_connection age settings now pool.idle) pool)
  unfolding start_get
  begins now pool permits e = rw e refl

  with_guard-Returns :
      {A : Type 0} {pool : Connections} {r : Outcome (Connection m) × Connections} (now : ℕ)
      (work : Connection m → Reply m A)
      → Gets pool r
      → Returns pool (with_guard m settings now pool.guards work r)
  unfolding with_guard
  with_guard-Returns now work (lends {c} h) = end_call-Returns now (work c) h
  with_guard-Returns now work (refuses hp hc hg reach) = returned hp hc hg reach

  -- Whatever is done with the connection of a guard, and whether it succeeds, fails or times out: a
  -- call that ends leaves as many permits as it found, no guard and no connecting of its own, and a
  -- pool that a run of pool.rs can reach; one that waits for a permit found none, and one that waits
  -- for a reply without a timer still holds one permit and one guard. Connecting comes to a
  -- connection or an error.
  pub guarded-Returns :
      {A : Type 0} (now : ℕ) (connected : Outcome (Connection m)) (work : Connection m → Reply m A)
      (pool : Connections)
      → Reachable age settings pool
      → connected ≢ panic
      → connected ≢ stuck
      → Returns pool (guarded m settings now connected work pool)
  unfolding guarded
  guarded-Returns {A = A} now connected work pool reach h h' = go pool.permits refl
    where
      found : Option (Connection m) × List (Connection m)
      found = take_healthy_connection age settings now pool.idle

      go :
          (n : ℕ)
          → pool.permits ≡ n
          → Returns pool (elim n as (λ _. Call m A) [
            | zero ↦ no_permit
            | suc permits ↦
                with_guard m settings now pool.guards work
                  (get_connection m settings now connected found permits pool)
          ])
      go zero e = queued e
      go (suc permits) e = with_guard-Returns now work (
          get_connection-Gets now pool connected permits found h h' e
            (next reach (gets now (begins now pool permits e))))
