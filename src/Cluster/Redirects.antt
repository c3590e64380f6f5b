-- ===== src/Cluster/Redirects.antt =====
-- src/router/cluster.rs: execute_on, which follows the redirects of a cluster. The nodes are a
-- parameter: how a connection to one is had from its pool, and what it replies.
use pyrsedis.Prelude.{
  ℕ, zero, suc, ◌+◌, ◌≤◌, ◌≡◌, Option, none, some, List, [], ◌∷◌, Bytes, codes, arith,
}
use pyrsedis.Cluster.{SlotMap, update_slot_master}
use pyrsedis.Error.{
  RedisErrorKind, moved, ask, cluster_down, try_again, from_error_msg, cluster, redis_error,
  too_many_moved, too_many_ask, cluster_down_reply,
}
use pyrsedis.Outcome.{Outcome, ok, fail, panic, stuck}
use pyrsedis.Resp.Types.{RespValue}

-- The nodes in some state: to get a connection to an address, and to send a command on it and read
-- the reply.
pub record Nodes : Type 1 where
  pub State : Type 0
  pub acquire : Bytes → State → Outcome (Unit {0}) × State
  pub exchange : Bytes → List Bytes → State → Outcome RespValue × State

abbrev pub max_redirects : ℕ
max_redirects = 5

module _ (net : Nodes) where
  -- The state that execute_on changes: the slot map and the nodes.
  pub record Router : Type 0 where
    pub slot_map : SlotMap
    pub nodes : net.State

  abbrev pub Task : Type 0 → Type 0
  Task A = Router → Outcome A × Router

  unfoldable pub then_do : {A B : Type 0} → Outcome A × Router → (A → Task B) → Outcome B × Router
  then_do (ok a, w) f = f a w
  then_do (fail e, w) f = (fail e, w)
  then_do (panic, w) f = (panic, w)
  then_do (stuck, w) f = (stuck, w)

  abbrev pub on_nodes : {A : Type 0} → (net.State → Outcome A × net.State) → Task A
  on_nodes op w =
      let (r, nodes) = op w.nodes in (r, record { slot_map = w.slot_map; nodes = nodes })

  unfoldable pub send_to : Bytes → List Bytes → Task RespValue
  send_to addr args w = on_nodes (net.exchange addr args) w

  -- A connection, a command and its reply.
  unfoldable pub run_on : Bytes → List Bytes → Task RespValue
  unfolding then_do
  run_on addr args w = then_do (on_nodes (net.acquire addr) w) (λ _. send_to addr args)

  -- ASKING, whose reply does not matter if there is one, and the command.
  unfoldable pub ask_on : Bytes → List Bytes → Task RespValue
  unfolding then_do
  ask_on addr args w = then_do (run_on addr (codes "ASKING" ∷ []) w) (λ _. send_to addr args)

  abbrev pub moved_to : ℕ → Bytes → Router → Router
  moved_to slot addr w = record {
    slot_map = update_slot_master slot addr w.slot_map;
    nodes = w.nodes;
  }

  -- The match on the kind of an error reply. `again` is execute_on with one redirect less, where one
  -- is left.
  unfoldable pub redirected :
      Option (Bytes → Task RespValue) → Bytes → List Bytes → Bytes → RedisErrorKind → Task RespValue
  redirected none addr args msg (moved slot new_addr) w = (fail (cluster too_many_moved), w)
  redirected (some again) addr args msg (moved slot new_addr) w =
      again new_addr (moved_to slot new_addr w)
  redirected none addr args msg (ask slot new_addr) w = (fail (cluster too_many_ask), w)
  redirected (some again) addr args msg (ask slot new_addr) w = ask_on new_addr args w
  redirected again addr args msg cluster_down w = (fail (cluster (cluster_down_reply msg)), w)
  redirected none addr args msg try_again w = (fail (redis_error msg), w)
  redirected (some again) addr args msg try_again w = again addr w
  redirected again addr args msg kind w = (ok (RespValue.error msg), w)

  unfoldable pub on_reply :
      Option (Bytes → Task RespValue) → Bytes → List Bytes → RespValue → Task RespValue
  on_reply again addr args (RespValue.error msg) w =
      redirected again addr args msg (from_error_msg msg).0 w
  on_reply again addr args result w = (ok result, w)

  unfoldable pub execute_on : ℕ → Bytes → List Bytes → Task RespValue
  unfolding then_do
  execute_on zero addr args w = then_do (run_on addr args w) (on_reply none addr args)
  execute_on (suc redirects_left) addr args w =
      then_do (run_on addr args w)
        (on_reply (some (λ new_addr. execute_on redirects_left new_addr args)) addr args)

module _ (net : Nodes) (sent : net.State → ℕ)
    (acquire_keeps : (addr : Bytes) (s : net.State) → sent (net.acquire addr s).1 ≡ sent s)
    (exchange_counts : (addr : Bytes) (args : List Bytes) (s : net.State)
      → sent (net.exchange addr args s).1 ≤ suc (sent s)) where
  -- No more than `n` commands have been sent.
  abbrev Within : {A : Type 0} → ℕ → Outcome A × Router net → Type 0
  Within n p = sent p.1.nodes ≤ n

  then_do-Within :
      {A B : Type 0} (n m : ℕ) (p : Outcome A × Router net) (f : A → Task net B)
      → n ≤ m
      → Within n p
      → ((a : A) (w : Router net) → sent w.nodes ≤ n → Within m (f a w))
      → Within m (then_do net p f)
  unfolding then_do
  then_do-Within n m (ok a, w) f le h k = k a w h
  then_do-Within n m (fail e, w) f le h k = omega arith
  then_do-Within n m (panic, w) f le h k = omega arith
  then_do-Within n m (stuck, w) f le h k = omega arith

  send_to-Within :
      (n : ℕ) (addr : Bytes) (args : List Bytes) (w : Router net)
      → sent w.nodes ≤ n
      → Within (suc n) (send_to net addr args w)
  unfolding send_to
  send_to-Within n addr args w h = omega (arith, exchange_counts addr args w.nodes)

  run_on-Within :
      (n : ℕ) (addr : Bytes) (args : List Bytes) (w : Router net)
      → sent w.nodes ≤ n
      → Within (suc n) (run_on net addr args w)
  unfolding run_on
  run_on-Within n addr args w h =
      then_do-Within n (suc n) (on_nodes net (net.acquire addr) w) (λ _. send_to net addr args)
        (omega arith) (omega (arith, acquire_keeps addr w.nodes))
        (λ _ w' h'. send_to-Within n addr args w' h')

  ask_on-Within :
      (n : ℕ) (addr : Bytes) (args : List Bytes) (w : Router net)
      → sent w.nodes ≤ n
      → Within (n + 2) (ask_on net addr args w)
  unfolding ask_on
  ask_on-Within n addr args w h =
      then_do-Within (suc n) (n + 2) (run_on net addr (codes "ASKING" ∷ []) w)
        (λ _. send_to net addr args) (omega arith) (run_on-Within n addr (codes "ASKING" ∷ []) w h)
        (λ _ w' h'.
          let one_more = send_to-Within (suc n) addr args w' h' in omega (arith, one_more))

  -- A reply to the last attempt sends no more; one before it what the next attempts send.
  redirected_last-Within :
      (n : ℕ) (addr : Bytes) (args : List Bytes) (msg : Bytes) (kind : RedisErrorKind)
      (w : Router net)
      → sent w.nodes ≤ n
      → Within n (redirected net none addr args msg kind w)
  unfolding redirected
  redirected_last-Within n addr args msg (moved slot new_addr) w h = h
  redirected_last-Within n addr args msg (ask slot new_addr) w h = h
  redirected_last-Within n addr args msg cluster_down w h = h
  redirected_last-Within n addr args msg try_again w h = h
  redirected_last-Within n addr args msg kind w h = h

  redirected_again-Within :
      (n k : ℕ) (again : Bytes → Task net RespValue) (addr : Bytes) (args : List Bytes)
      (msg : Bytes) (kind : RedisErrorKind) (w : Router net)
      → ((new_addr : Bytes) (w' : Router net)
          → sent w'.nodes ≤ n
          → Within (n + k) (again new_addr w'))
      → 2 ≤ k
      → sent w.nodes ≤ n
      → Within (n + k) (redirected net (some again) addr args msg kind w)
  unfolding redirected
  redirected_again-Within n k again addr args msg (moved slot new_addr) w g le h = g new_addr _ h
  redirected_again-Within n k again addr args msg (ask slot new_addr) w g le h =
      let asked = ask_on-Within n new_addr args w h in omega (arith, asked)
  redirected_again-Within n k again addr args msg cluster_down w g le h = omega arith
  redirected_again-Within n k again addr args msg try_again w g le h = g addr w h
  redirected_again-Within n k again addr args msg kind w g le h = omega arith

  reply_last-Within :
      (n : ℕ) (addr : Bytes) (args : List Bytes) (v : RespValue) (w : Router net)
      → sent w.nodes ≤ n
      → Within n (on_reply net none addr args v w)
  unfolding on_reply
  reply_last-Within n addr args (RespValue.error msg) w h =
      redirected_last-Within n addr args msg (from_error_msg msg).0 w h
  reply_last-Within n addr args v w h = h

  reply_again-Within :
      (n k : ℕ) (again : Bytes → Task net RespValue) (addr : Bytes) (args : List Bytes)
      (v : RespValue) (w : Router net)
      → ((new_addr : Bytes) (w' : Router net)
          → sent w'.nodes ≤ n
          → Within (n + k) (again new_addr w'))
      → 2 ≤ k
      → sent w.nodes ≤ n
      → Within (n + k) (on_reply net (some again) addr args v w)
  unfolding on_reply
  reply_again-Within n k again addr args (RespValue.error msg) w g le h =
      redirected_again-Within n k again addr args msg (from_error_msg msg).0 w g le h
  reply_again-Within n k again addr args v w g le h = omega arith

  attempts :
      (redirects_left n : ℕ) (addr : Bytes) (args : List Bytes) (w : Router net)
      → sent w.nodes ≤ n
      → Within (n + (redirects_left + 2)) (execute_on net redirects_left addr args w)
  unfolding execute_on
  attempts zero n addr args w h =
      then_do-Within (suc n) (n + 2) (run_on net addr args w) (on_reply net none addr args)
        (omega arith) (run_on-Within n addr args w h)
        (λ v w' h'. let last = reply_last-Within (suc n) addr args v w' h' in omega (arith, last))
  attempts (suc redirects_left) n addr args w h =
      then_do-Within (suc n) (n + (suc redirects_left + 2)) (run_on net addr args w)
        (on_reply net (some (λ new_addr. execute_on net redirects_left new_addr args)) addr args)
        (omega arith) (run_on-Within n addr args w h)
        (λ v w' h'.
          let all =
            reply_again-Within (suc n) (redirects_left + 2)
              (λ new_addr. execute_on net redirects_left new_addr args) addr args v w'
              (λ new_addr w'' h''. attempts redirects_left (suc n) new_addr args w'' h'')
              (omega arith) h' in
          omega (arith, all))

  -- However the nodes of a cluster redirect, a command with so many redirects left sends at most two
  -- more commands than that, ASKING included, and then ends: redirects in a circle are not followed
  -- forever. Getting a connection sends no command, and an exchange sends one.
  pub execute_on_bound :
      (redirects_left : ℕ) (addr : Bytes) (args : List Bytes) (w : Router net)
      → sent (execute_on net redirects_left addr args w).1.nodes
        ≤ sent w.nodes + (redirects_left + 2)
  execute_on_bound redirects_left addr args w =
      attempts redirects_left (sent w.nodes) addr args w (omega arith)
