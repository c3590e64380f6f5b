-- ===== src/Sentinel/Tests.antt =====
-- A master that refuses writes until the sentinels name the next one, and the theorems at it.
use pyrsedis.Prelude.{
  ℕ, suc, ◌+◌, ◌≤◌, ◌≡◌, ◌≢◌, refl, List, [], ◌∷◌, ◌++◌, Bytes, codes, bytes_eq, arith, pos,
  if◌then◌else◌,
}
use pyrsedis.Outcome.{ok}
use pyrsedis.Resp.Types.{RespValue, nil, cons, as_str}
use pyrsedis.Error.{redis_error}
use pyrsedis.Sentinel.{
  Network, SentinelRouter, execute_with_retry, after_attempt, attempt, on_acquired, on_sent,
  on_read, is_read_only, error_text, retry, after_failover, failover, new_master, resolve_master,
  resolve_from, answer_of, address_of,
}
use pyrsedis.Sentinel.Retries.{Replied, execute_with_retry-ok}
use pyrsedis.Sentinel.Sends.{execute_with_retry_bound}
use pyrsedis.Text.{starts_with}

abbrev done : RespValue
done = RespValue.integer (pos 1)

-- The state counts the commands.
abbrev demoted : Network
demoted = record {
  State = ℕ;
  acquire = λ addr s. (ok tt, s);
  send = λ addr args s. (ok tt, suc s);
  read = λ addr s. (
    ok (if bytes_eq addr (codes "b:2") then done else RespValue.error (codes "READONLY replica")),
    s,
  );
  ask_sentinel = λ addr name s. (
    ok (
        RespValue.array (
          cons (RespValue.simple_string (codes "b"))
            (cons (RespValue.simple_string (codes "2")) nil))),
    s,
  );
}

abbrev before : SentinelRouter demoted
before = record {
  master_addr = codes "a:1";
  sentinels = codes "s:3" ∷ [];
  master_name = codes "m";
  network = 0;
}

abbrev incr : List Bytes
incr = codes "INCR" ∷ codes "k" ∷ []

follows_the_master : (execute_with_retry demoted 3 incr before).0 ≡ ok done
unfolding execute_with_retry after_attempt attempt on_acquired on_sent on_read is_read_only
    error_text retry after_failover failover new_master resolve_master resolve_from answer_of
    address_of as_str starts_with redis_error
follows_the_master = refl

execute_with_retry-ok_example :
    Replied demoted incr done (execute_with_retry demoted 3 incr before).1
    × (done ≢ RespValue.error (codes "READONLY" ++ codes " replica"))
execute_with_retry-ok_example =
    execute_with_retry-ok demoted 3 incr before done (codes " replica") follows_the_master

execute_with_retry_bound_example : (execute_with_retry demoted 3 incr before).1.network ≤ suc 0 + 3
execute_with_retry_bound_example =
    execute_with_retry_bound demoted (λ s. s) (λ addr s. refl) (λ addr args s. omega arith)
      (λ addr s. refl) (λ addr name s. refl) 3 incr before
