-- ===== src/Sentinel/Sends.antt =====
-- src/router/sentinel.rs: how often a command that is retried is sent.
use pyrsedis.Prelude.{ℕ, zero, suc, ◌+◌, ◌≤◌, ◌≡◌, refl, ◌∙◌, List, [], ◌∷◌, Bytes, arith}
use pyrsedis.Error.{PyrsedisError, sentinel, no_sentinel_answer}
use pyrsedis.Outcome.{Outcome, ok, fail, panic, stuck}
use pyrsedis.Sentinel.{
  Network, Answer, settled, missing, answer_of, resolve_from, resolve_master, SentinelRouter,
  new_master, failover, Attempt, returns, retries, on_sent, on_acquired, attempt, Task,
  after_attempt, after_failover, retry, execute_with_retry,
}

module _ (net : Network) (sent : net.State → ℕ)
    (acquire_keeps : (addr : Bytes) (s : net.State) → sent (net.acquire addr s).1 ≡ sent s)
    (send_counts : (addr : Bytes) (args : List Bytes) (s : net.State)
      → sent (net.send addr args s).1 ≤ suc (sent s))
    (read_keeps : (addr : Bytes) (s : net.State) → sent (net.read addr s).1 ≡ sent s)
    (ask_keeps : (addr name : Bytes) (s : net.State)
      → sent (net.ask_sentinel addr name s).1 ≡ sent s) where
  resolve_keeps :
      (name : Bytes) (e : PyrsedisError) (sentinels : List Bytes) (s : net.State)
      → sent (resolve_from net name e sentinels s).1 ≡ sent s
  unfolding resolve_from
  resolve_keeps name e [] s = refl
  resolve_keeps name e (addr ∷ sentinels) s =
      go (answer_of name (net.ask_sentinel addr name s).0)
        (λ e'. resolve_keeps name e' sentinels (net.ask_sentinel addr name s).1)
    where
      s' : net.State
      s' = (net.ask_sentinel addr name s).1

      go :
          (a : Answer)
          → ((e' : PyrsedisError) → sent (resolve_from net name e' sentinels s').1 ≡ sent s')
          → sent
              (elim a as (λ _. Outcome Bytes × net.State) [
                | settled r ↦ (r, s')
                | missing e' ↦ resolve_from net name e' sentinels s'
              ]).1
            ≡ sent s
      go (settled r) k = ask_keeps addr name s
      go (missing e') k = k e' ∙ ask_keeps addr name s

  failover_keeps : (w : SentinelRouter net) → sent (failover net w).1.network ≡ sent w.network
  unfolding failover resolve_master new_master
  failover_keeps w =
      go (resolve_from net w.master_name (sentinel no_sentinel_answer) w.sentinels w.network)
        (resolve_keeps w.master_name (sentinel no_sentinel_answer) w.sentinels w.network)
    where
      go :
          (p : Outcome Bytes × net.State)
          → sent p.1 ≡ sent w.network
          → sent (new_master net p w).1.network ≡ sent w.network
      go (ok a, s) h = h
      go (fail e, s) h = h
      go (panic, s) h = h
      go (stuck, s) h = h

  attempt_bound :
      (args : List Bytes) (w : SentinelRouter net)
      → sent (attempt net args w).1.network ≤ suc (sent w.network)
  unfolding attempt on_acquired on_sent
  attempt_bound args w =
      acquired (net.acquire w.master_addr w.network)
        (omega (arith, acquire_keeps w.master_addr w.network))
    where
      addr : Bytes
      addr = w.master_addr

      on_the_wire :
          (p : Outcome (Unit {0}) × net.State)
          → sent p.1 ≤ suc (sent w.network)
          → sent (on_sent net addr p).1 ≤ suc (sent w.network)
      on_the_wire (ok u, s) h = omega (arith, read_keeps addr s)
      on_the_wire (fail e, s) h = h
      on_the_wire (panic, s) h = h
      on_the_wire (stuck, s) h = h

      acquired :
          (p : Outcome (Unit {0}) × net.State)
          → sent p.1 ≤ sent w.network
          → sent (on_acquired net addr args p).1 ≤ suc (sent w.network)
      acquired (ok u, s) h =
          on_the_wire (net.send addr args s) (omega (arith, send_counts addr args s))
      acquired (fail e, s) h = omega arith
      acquired (panic, s) h = omega arith
      acquired (stuck, s) h = omega arith

  after_attempt_bound :
      (n left : ℕ) (rest : PyrsedisError → Task net) (p : Attempt net × SentinelRouter net)
      → sent p.1.network ≤ suc n
      → ((e : PyrsedisError) (w : SentinelRouter net)
          → sent (rest e w).1.network ≤ sent w.network + left)
      → sent (after_attempt net rest p).1.network ≤ suc n + left
  unfolding after_attempt
  after_attempt_bound n left rest (returns r, w) h k = omega arith
  after_attempt_bound n left rest (retries e, w) h k = let more = k e w in omega (arith, more)

  after_failover_bound :
      (n left : ℕ) (args : List Bytes) (rest : PyrsedisError → Task net)
      (p : Outcome (Unit {0}) × SentinelRouter net)
      → sent p.1.network ≤ n
      → ((e : PyrsedisError) (w : SentinelRouter net)
          → sent (rest e w).1.network ≤ sent w.network + left)
      → sent (after_failover net args rest p).1.network ≤ suc n + left
  unfolding after_failover
  after_failover_bound n left args rest (ok u, w) h k =
      after_attempt_bound n left rest (attempt net args w) (omega (arith, attempt_bound args w)) k
  after_failover_bound n left args rest (fail e, w) h k = let more = k e w in omega (arith, more)
  after_failover_bound n left args rest (panic, w) h k = omega arith
  after_failover_bound n left args rest (stuck, w) h k = omega arith

  retry_bound :
      (left : ℕ) (args : List Bytes) (e : PyrsedisError) (w : SentinelRouter net)
      → sent (retry net left args e w).1.network ≤ sent w.network + left
  unfolding retry
  retry_bound zero args e w = omega arith
  retry_bound (suc left) args e w =
      let rest =
        after_failover_bound (sent w.network) left args (retry net left args) (failover net w)
          (omega (arith, failover_keeps w)) (retry_bound left args) in
      omega (arith, rest)

  -- However the network answers, execute_with_retry sends the command at most once more than it may
  -- retry: getting a connection, reading a reply and asking a sentinel send none, and a send is one.
  pub execute_with_retry_bound :
      (retry_count : ℕ) (args : List Bytes) (w : SentinelRouter net)
      → sent (execute_with_retry net retry_count args w).1.network
        ≤ suc (sent w.network) + retry_count
  unfolding execute_with_retry
  execute_with_retry_bound retry_count args w =
      after_attempt_bound (sent w.network) retry_count (retry net retry_count args)
        (attempt net args w) (attempt_bound args w) (retry_bound retry_count args)
