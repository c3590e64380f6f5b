-- ===== src/Sentinel/Retries.antt =====
-- src/router/sentinel.rs: what a command that is retried returns.
use pyrsedis.Prelude.{
  ℕ, zero, suc, ◌≡◌, ◌≢◌, refl, sym, ap, subst, ◌∙◌, true, false, List, ◌++◌, Bytes, codes,
  Bool-cases, inl, inr,
}
use pyrsedis.Error.{PyrsedisError, connection}
use pyrsedis.Outcome.{Outcome, ok, fail, panic, stuck}
use pyrsedis.Resp.Types.{RespValue}
use pyrsedis.Sentinel.{
  Network, SentinelRouter, with_network, failover, Attempt, returns, retries, is_read_only, on_read,
  on_sent, on_acquired, attempt, Task, after_attempt, after_failover, retry, execute_with_retry,
}
use pyrsedis.Text.{starts_with}

module _ (net : Network) (args : List Bytes) where
  -- The node that the router holds as the master has been sent the command, and its reply was the
  -- last thing that happened on the network.
  pub record Replied (v : RespValue) (w : SentinelRouter net) : Type 0 where
    pub before : net.State
    pub between : net.State
    pub sent : net.send w.master_addr args before ≡ (ok tt, between)
    pub read : net.read w.master_addr between ≡ (ok v, w.network)

  data Writable : Outcome RespValue × SentinelRouter net → Type 0 where
    writable :
        {v : RespValue} {w : SentinelRouter net}
        → Replied v w
        → is_read_only net v ≡ false
        → Writable (ok v, w)
    failed : {e : PyrsedisError} {w : SentinelRouter net} → Writable (fail e, w)
    panics : {w : SentinelRouter net} → Writable (panic, w)
    starves : {w : SentinelRouter net} → Writable (stuck, w)

  data Good : Attempt net × SentinelRouter net → Type 0 where
    good : {r : Outcome RespValue} {w : SentinelRouter net} → Writable (r, w) → Good (returns r, w)
    again : {e : PyrsedisError} {w : SentinelRouter net} → Good (retries e, w)

  on_read-Good :
      (w : SentinelRouter net) (s1 s2 : net.State) (p : Outcome RespValue × net.State)
      → net.send w.master_addr args s1 ≡ (ok tt, s2)
      → net.read w.master_addr s2 ≡ p
      → Good (on_read net p.0, with_network net p.1 w)
  unfolding on_read
  on_read-Good w s1 s2 (ok v, s) sent read = elim (Bool-cases (is_read_only net v)) [
    | inl h ↦ rw h again
    | inr h ↦
        rw h (good (writable (record { before = s1; between = s2; sent = sent; read = read }) h))
  ]
  on_read-Good w s1 s2 (fail (connection m), s) sent read = again
  on_read-Good w s1 s2 (fail e, s) sent read = good failed
  on_read-Good w s1 s2 (panic, s) sent read = good panics
  on_read-Good w s1 s2 (stuck, s) sent read = good starves

  on_sent-Good :
      (w : SentinelRouter net) (s1 : net.State) (p : Outcome (Unit {0}) × net.State)
      → net.send w.master_addr args s1 ≡ p
      → Good ((on_sent net w.master_addr p).0, with_network net (on_sent net w.master_addr p).1 w)
  unfolding on_sent
  on_sent-Good w s1 (ok tt, s) sent = on_read-Good w s1 s (net.read w.master_addr s) sent refl
  on_sent-Good w s1 (fail e, s) sent = again
  on_sent-Good w s1 (panic, s) sent = good panics
  on_sent-Good w s1 (stuck, s) sent = good starves

  attempt-Good : (w : SentinelRouter net) → Good (attempt net args w)
  unfolding attempt on_acquired
  attempt-Good w = go (net.acquire w.master_addr w.network)
    where
      go :
          (p : Outcome (Unit {0}) × net.State)
          → Good (
            (on_acquired net w.master_addr args p).0,
            with_network net (on_acquired net w.master_addr args p).1 w,
          )
      go (ok u, s) = on_sent-Good w s (net.send w.master_addr args s) refl
      go (fail e, s) = again
      go (panic, s) = good panics
      go (stuck, s) = good starves

  after_attempt-Writable :
      (rest : PyrsedisError → Task net) (p : Attempt net × SentinelRouter net)
      → Good p
      → ((e : PyrsedisError) (w : SentinelRouter net) → Writable (rest e w))
      → Writable (after_attempt net rest p)
  unfolding after_attempt
  after_attempt-Writable rest (returns r, w) (good h) k = h
  after_attempt-Writable rest (retries e, w) h k = k e w

  after_failover-Writable :
      (rest : PyrsedisError → Task net) (p : Outcome (Unit {0}) × SentinelRouter net)
      → ((e : PyrsedisError) (w : SentinelRouter net) → Writable (rest e w))
      → Writable (after_failover net args rest p)
  unfolding after_failover
  after_failover-Writable rest (ok u, w) k =
      after_attempt-Writable rest (attempt net args w) (attempt-Good w) k
  after_failover-Writable rest (fail e, w) k = k e w
  after_failover-Writable rest (panic, w) k = panics
  after_failover-Writable rest (stuck, w) k = starves

  retry-Writable :
      (left : ℕ) (e : PyrsedisError) (w : SentinelRouter net) → Writable (retry net left args e w)
  unfolding retry
  retry-Writable zero e w = failed
  retry-Writable (suc left) e w =
      after_failover-Writable (retry net left args) (failover net w) (retry-Writable left)

  read_only_error :
      (rest : Bytes) → is_read_only net (RespValue.error (codes "READONLY" ++ rest)) ≡ true
  unfolding is_read_only starts_with
  read_only_error rest = refl

  Writable-ok :
      {p : Outcome RespValue × SentinelRouter net} {v : RespValue} (rest : Bytes)
      → Writable p
      → p.0 ≡ ok v
      → Replied v p.1 × (v ≢ RespValue.error (codes "READONLY" ++ rest))
  Writable-ok {v = v} rest (writable {v = u} {w} replied h) e =
      let same : u ≡ v = cc in
      (
        subst (λ z. Replied z w) same replied,
        (λ bad.
            let writes = ap (is_read_only net) (same ∙ bad) ∙ read_only_error rest in
            let clash : false ≡ true = sym h ∙ writes in cc),
      )
  Writable-ok rest failed e = cc
  Writable-ok rest panics e = cc
  Writable-ok rest starves e = cc

-- A value that execute_with_retry returns is the reply of the node that the router then holds as
-- the master, read right after the command has been sent to that node, and it is no simple error that
-- starts with READONLY.
pub execute_with_retry-ok :
    (net : Network) (retry_count : ℕ) (args : List Bytes) (w : SentinelRouter net) (v : RespValue)
    (rest : Bytes)
    → (execute_with_retry net retry_count args w).0 ≡ ok v
    → Replied net args v (execute_with_retry net retry_count args w).1
      × (v ≢ RespValue.error (codes "READONLY" ++ rest))
unfolding execute_with_retry
execute_with_retry-ok net retry_count args w v rest e =
    Writable-ok net args rest
      (after_attempt-Writable net args (retry net retry_count args) (attempt net args w)
        (attempt-Good net args w) (retry-Writable net args retry_count))
      e
