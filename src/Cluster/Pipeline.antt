-- ===== src/Cluster/Pipeline.antt =====
-- src/router/cluster.rs: pipeline. The commands are grouped by their nodes, each group is sent at once,
-- and its replies are read in turn, redirects followed.
pub mod Groups
pub mod Results
pub mod Order
mod Tests
use pyrsedis.Prelude.{
  ℕ, zero, suc, ◌-◌, Bool, Option, none, some, List, [], ◌∷◌, ◌++◌, Bytes, codes, bytes_eq, length,
  if◌then◌else◌,
}
use pyrsedis.Cluster.{SlotMap}
use pyrsedis.Cluster.Keys.{first_master, target_node}
use pyrsedis.Cluster.Redirects.{
  Nodes, Router, Task, on_nodes, then_do, moved_to, ask_on, execute_on, max_redirects,
}
use pyrsedis.Error.{RedisErrorKind, moved, ask, from_error_msg}
use pyrsedis.Outcome.{Outcome, ok, fail, panic, stuck}
use pyrsedis.Resp.Types.{RespValue}

-- A command with its place in the pipeline, and the commands for each node.
abbrev pub Placed : Type 0
Placed = ℕ × List Bytes

abbrev pub Groups : Type 0
Groups = List (Bytes × List Placed)

-- The node of a command, as in execute_routed.
unfoldable pub target_of : Bool → SlotMap → List Bytes → Bytes
target_of read_from_replicas ranges [] = first_master ranges
target_of read_from_replicas ranges (name ∷ args) = target_node read_from_replicas ranges name args

-- `groups.entry(addr).or_default().push(…)`.
unfoldable pub push_group : Bytes → Placed → Groups → Groups
push_group addr p [] = (addr, p ∷ []) ∷ []
push_group addr p ((a, group) ∷ groups) =
    let rest = push_group addr p groups in
    if bytes_eq a addr then (a, group ++ (p ∷ [])) ∷ groups else (a, group) ∷ rest

-- The loop over the commands.
unfoldable pub group_commands : (List Bytes → Bytes) → ℕ → List (List Bytes) → Groups → Groups
group_commands target idx [] groups = groups
group_commands target idx (cmd ∷ cmds) groups =
    group_commands target (suc idx) cmds (push_group (target cmd) (idx, cmd) groups)

abbrev pub Results : Type 0
Results = List (Option RespValue)

-- `vec![None; n]`.
unfoldable pub no_results : ℕ → Results
no_results zero = []
no_results (suc n) = none ∷ no_results n

-- `results[idx] = Some(v)`.
unfoldable pub set_result : ℕ → RespValue → Results → Results
set_result i v [] = []
set_result zero v (r ∷ results) = some v ∷ results
set_result (suc i) v (r ∷ results) = r ∷ set_result i v results

-- `r.unwrap_or(RespValue::Null)` for each.
unfoldable pub unwrap_results : Results → List RespValue
unwrap_results [] = []
unwrap_results (none ∷ results) = RespValue.null ∷ unwrap_results results
unwrap_results (some v ∷ results) = v ∷ unwrap_results results

-- The results for a group without a node.
unfoldable pub refuse_group : List Placed → Results → Results
refuse_group [] results = results
refuse_group ((idx, cmd) ∷ group) results =
    refuse_group group (set_result idx (RespValue.error (codes "no node for slot")) results)

-- On the connection to a node: a command is sent, and a reply is read.
pub record Pipes (net : Nodes) : Type 0 where
  pub send : Bytes → List Bytes → net.State → Outcome (Unit {0}) × net.State
  pub receive : Bytes → net.State → Outcome RespValue × net.State

module _ (net : Nodes) (pipes : Pipes net) where
  -- A reply, or what its redirect leads to.
  unfoldable pub follow : RespValue → List Bytes → RedisErrorKind → Task net RespValue
  follow resp cmd (moved slot new_addr) w =
      execute_on net (max_redirects - 1) new_addr cmd (moved_to net slot new_addr w)
  follow resp cmd (ask slot new_addr) w = ask_on net new_addr cmd w
  follow resp cmd kind w = (ok resp, w)

  unfoldable pub settle_reply : RespValue → List Bytes → Task net RespValue
  settle_reply (RespValue.error msg) cmd w =
      follow (RespValue.error msg) cmd (from_error_msg msg).0 w
  settle_reply resp cmd w = (ok resp, w)

  unfoldable pub send_group : Bytes → List Placed → Task net (Unit {0})
  send_group addr [] w = (ok tt, w)
  send_group addr ((idx, cmd) ∷ group) w =
      then_do net (on_nodes net (pipes.send addr cmd) w) (λ _. send_group addr group)

  unfoldable pub read_group : Bytes → List Placed → Results → Task net Results
  read_group addr [] results w = (ok results, w)
  read_group addr ((idx, cmd) ∷ group) results w =
      then_do net (on_nodes net (pipes.receive addr) w) (λ resp w1.
        then_do net (settle_reply resp cmd w1)
          (λ v. read_group addr group (set_result idx v results)))

  unfoldable pub run_group : Bytes → List Placed → Results → Task net Results
  run_group [] group results w = (ok (refuse_group group results), w)
  run_group (b ∷ addr) group results w =
      then_do net (on_nodes net (net.acquire (b ∷ addr)) w) (λ _ w1.
        then_do net (send_group (b ∷ addr) group w1) (λ _. read_group (b ∷ addr) group results))

  unfoldable pub run_groups : Groups → Results → Task net Results
  run_groups [] results w = (ok results, w)
  run_groups ((addr, group) ∷ groups) results w =
      then_do net (run_group addr group results w) (run_groups groups)

  -- `order` is the order in which the map of the groups is iterated.
  unfoldable pub cluster_pipeline :
      Bool → (Groups → Groups) → List (List Bytes) → Task net (List RespValue)
  cluster_pipeline read_from_replicas order commands w =
      then_do net
        (run_groups (order (group_commands (target_of read_from_replicas w.slot_map) 0 commands []))
          (no_results (length commands)) w)
        (λ results w1. (ok (unwrap_results results), w1))
