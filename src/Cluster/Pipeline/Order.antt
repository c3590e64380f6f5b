-- ===== src/Cluster/Pipeline/Order.antt =====
-- src/router/cluster.rs: the results of a pipeline stand in the order of its commands.
use pyrsedis.Prelude.{
  ℕ, ◌+◌, ◌≡◌, ◌≢◌, refl, sym, ◌∙◌, ap, subst, Bool, some, List, [], ◌∷◌, ◌++◌, Bytes, length,
  append-nil, append_assoc, get_elem?, map, arith, inl, inr, All,
}
use pyrsedis.Cluster.Pipeline.{
  Placed, Groups, group_commands, Results, no_results, set_result, Pipes, settle_reply, send_group,
  read_group, run_group, run_groups, cluster_pipeline, target_of,
}
use pyrsedis.Cluster.Pipeline.Groups.{
  IsGroup, HasPlace, HasGroup, group_commands-IsGroup, group_commands-HasGroup,
}
use pyrsedis.Cluster.Pipeline.Results.{
  Agrees, Filled, no_results-Agrees, set_result-Agrees, set_result-Filled, kept-Filled,
  unwrap_results-full, get_elem?-map, map_elem,
}
use pyrsedis.Cluster.Redirects.{Nodes, Router, then_do}
use pyrsedis.Outcome.{Outcome, ok}
use pyrsedis.Resp.Types.{RespValue}

-- Nodes of which each gets its commands on a clean connection and replies to them in their order, with
-- no error.
pub record Serves (net : Nodes) (pipes : Pipes net) (reply : Bytes → List Bytes → RespValue)
    : Type 0 where
  -- The replies that are on their way from a node.
  pub pending : net.State → Bytes → List RespValue
  pub acquires :
      (addr : Bytes) (s : net.State)
      → (s' : net.State) × (net.acquire addr s ≡ (ok tt, s')) × (pending s' addr ≡ [])
  pub sends :
      (addr : Bytes) (cmd : List Bytes) (s : net.State)
      → (s' : net.State) × (pipes.send addr cmd s ≡ (ok tt, s'))
        × (pending s' addr ≡ pending s addr ++ (reply addr cmd ∷ []))
  pub receives :
      (addr : Bytes) (s : net.State) (v : RespValue) (vs : List RespValue)
      → pending s addr ≡ v ∷ vs
      → (s' : net.State) × (pipes.receive addr s ≡ (ok v, s')) × (pending s' addr ≡ vs)
  pub no_errors :
      (addr : Bytes) (cmd : List Bytes) (msg : Bytes) → reply addr cmd ≢ RespValue.error msg

module _ (net : Nodes) (pipes : Pipes net) (reply : Bytes → List Bytes → RespValue)
    (serves : Serves net pipes reply) (expected : List RespValue) where
  -- What some commands have added to the results.
  record Progress (places : ℕ → Type 0) (results results' : Results) : Type 0 where
    agrees : Agrees results' expected
    filled : (i : ℕ) → places i → Filled i results'
    kept : (i : ℕ) → Filled i results → Filled i results'

  -- A run that succeeds with such results.
  abbrev Fills : (ℕ → Type 0) → Results → Outcome Results × Router net → Type 0
  Fills places results r =
      (results' : Results) × (w' : Router net) × (r ≡ (ok results', w'))
      × Progress places results results'

  settle_reply-plain :
      (resp : RespValue) (cmd : List Bytes) (w : Router net)
      → ((msg : Bytes) → resp ≢ RespValue.error msg)
      → settle_reply net pipes resp cmd w ≡ (ok resp, w)
  unfolding settle_reply
  settle_reply-plain (RespValue.error msg) cmd w ne = absurd (ne msg refl)
  settle_reply-plain _ cmd w ne = refl

  abbrev replies : Bytes → List Placed → List RespValue
  replies addr [] = []
  replies addr ((idx, cmd) ∷ group) = reply addr cmd ∷ replies addr group

  send_group-pending :
      (addr : Bytes) (group : List Placed) (w : Router net)
      → (w' : Router net) × (send_group net pipes addr group w ≡ (ok tt, w'))
        × (serves.pending w'.nodes addr ≡ serves.pending w.nodes addr ++ replies addr group)
  unfolding send_group then_do
  send_group-pending addr [] w = (w, refl, sym (append-nil (serves.pending w.nodes addr)))
  send_group-pending addr ((idx, cmd) ∷ group) w =
      let (s, sent, queued) = serves.sends addr cmd w.nodes in
      let w1 : Router net = record { slot_map = w.slot_map; nodes = s } in
      let (w2, rest, all) = send_group-pending addr group w1 in
      (
        w2,
        rw sent rest,
        all
            ∙ ap (λ q. q ++ replies addr group) queued
            ∙ append_assoc (serves.pending w.nodes addr) (reply addr cmd ∷ []) (replies addr group),
      )

  read_group-Fills :
      (addr : Bytes) (group : List Placed) (results : Results) (w : Router net)
      → serves.pending w.nodes addr ≡ replies addr group
      → All (λ (p : Placed). get_elem? expected p.0 ≡ some (reply addr p.1)) group
      → Agrees results expected
      → Fills (λ i. HasPlace i group) results (read_group net pipes addr group results w)
  unfolding read_group then_do
  read_group-Fills addr [] results w q hs a =
      (results, w, refl, record { agrees = a; filled = λ i h. absurd h; kept = λ i h. h })
  read_group-Fills addr ((idx, cmd) ∷ group) results w q (e, hs) a =
      let (s, got, left) = serves.receives addr w.nodes (reply addr cmd) (replies addr group) q in
      let w1 : Router net = record { slot_map = w.slot_map; nodes = s } in
      let settled = settle_reply-plain (reply addr cmd) cmd w1 (serves.no_errors addr cmd) in
      let (results', w2, rest, p) =
        read_group-Fills addr group (set_result idx (reply addr cmd) results) w1 left hs
          (set_result-Agrees idx (reply addr cmd) results expected e a) in
      (
        results',
        w2,
        rw (got, settled) rest,
        record {
          agrees = p.agrees;
          filled = λ i h. elim h [
            | inl same ↦ p.kept i (
                subst (λ j. Filled j (set_result idx (reply addr cmd) results)) (sym same)
                  (set_result-Filled idx (reply addr cmd) results expected e a))
            | inr later ↦ p.filled i later
          ];
          kept = λ i h. p.kept i (kept-Filled idx i (reply addr cmd) results h);
        },
      )

  run_group-Fills :
      (addr : Bytes) (group : List Placed) (results : Results) (w : Router net)
      → IsGroup reply expected (addr, group)
      → Agrees results expected
      → Fills (λ i. HasPlace i group) results (run_group net pipes addr group results w)
  unfolding run_group then_do
  run_group-Fills [] group results w h a = absurd (h.0 refl)
  run_group-Fills (b ∷ addr) group results w h a =
      let (s, got, clean) = serves.acquires (b ∷ addr) w.nodes in
      let w1 : Router net = record { slot_map = w.slot_map; nodes = s } in
      let (w2, sent, queued) = send_group-pending (b ∷ addr) group w1 in
      let (results', w3, read, p) =
        read_group-Fills (b ∷ addr) group results w2
          (queued ∙ ap (λ q. q ++ replies (b ∷ addr) group) clean) h.1 a in
      (results', w3, rw (got, sent) read, p)

  run_groups-Fills :
      (groups : Groups) (results : Results) (w : Router net)
      → All (IsGroup reply expected) groups
      → Agrees results expected
      → Fills (λ i. HasGroup i groups) results (run_groups net pipes groups results w)
  unfolding run_groups then_do
  run_groups-Fills [] results w hs a =
      (results, w, refl, record { agrees = a; filled = λ i h. absurd h; kept = λ i h. h })
  run_groups-Fills ((addr, group) ∷ groups) results w (h, hs) a =
      let (results1, w1, one, p) = run_group-Fills addr group results w h a in
      let (results2, w2, rest, q) = run_groups-Fills groups results1 w1 hs p.agrees in
      (
        results2,
        w2,
        rw one rest,
        record {
          agrees = q.agrees;
          filled = λ i h'. elim h' [
            | inl here ↦ q.kept i (p.filled i here)
            | inr later ↦ q.filled i later
          ];
          kept = λ i f. q.kept i (p.kept i f);
        },
      )

-- A map may be iterated in any order: each group comes, and nothing else.
pub record Rearranges (order : Groups → Groups) : Type 1 where
  pub all :
      (P : Bytes × List Placed → Type 0) (groups : Groups) → All P groups → All P (order groups)
  pub each : (i : ℕ) (groups : Groups) → HasGroup i groups → HasGroup i (order groups)

-- Where no reply is an error, a pipeline of a cluster returns for every command the reply of its node,
-- in the order of the commands: neither the grouping by nodes nor the order in which the groups are
-- sent is seen. Every command has a node, and each node replies in the order in which it gets its
-- commands.
pub cluster_pipeline-map :
    (net : Nodes) (pipes : Pipes net) (reply : Bytes → List Bytes → RespValue)
    (serves : Serves net pipes reply) (read_from_replicas : Bool) (order : Groups → Groups)
    (commands : List (List Bytes)) (w : Router net)
    → Rearranges order
    → All (λ cmd. target_of read_from_replicas w.slot_map cmd ≢ []) commands
    → (w' : Router net) × (cluster_pipeline net pipes read_from_replicas order commands w
        ≡ (ok (map (λ cmd. reply (target_of read_from_replicas w.slot_map cmd) cmd) commands), w'))
unfolding cluster_pipeline then_do
cluster_pipeline-map net pipes reply serves read_from_replicas order commands w moves routed =
    let target : List Bytes → Bytes = target_of read_from_replicas w.slot_map in
    let f : List Bytes → RespValue = λ cmd. reply (target cmd) cmd in
    let groups = group_commands target 0 commands [] in
    let valid =
      group_commands-IsGroup reply (map f commands) target 0 commands [] routed
        (λ k cmd h.
          ap (get_elem? (map f commands)) {x = 0 + k} {y = k} (omega arith)
          ∙ get_elem?-map f commands k h)
        tt in
    let (results, w', ran, p) =
      run_groups-Fills net pipes reply serves (map f commands) (order groups)
        (no_results (length commands)) w (moves.all (IsGroup reply (map f commands)) groups valid)
        (no_results-Agrees f commands) in
    (
      w',
      rw
          (
            ran,
            unwrap_results-full results (map f commands) p.agrees (λ i v e. p.filled i (
                moves.each i groups (
                  subst (λ j. HasGroup j groups) {x = 0 + i} {y = i} (omega arith)
                    (group_commands-HasGroup target 0 commands [] i (map_elem f commands i e).1)))),
          )
          refl,
    )
