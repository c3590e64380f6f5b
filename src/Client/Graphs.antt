-- ===== src/Client/Graphs.antt =====
-- src/client.rs: the commands on scripts and graphs, of the class Redis and of the class Pipeline.
use pyrsedis.Prelude.{ℕ, refl, Option, none, some, List, [], ◌∷◌, Bytes, codes}
use pyrsedis.Client.Args.{push, push_each, extend, push_timeout, SameArgs}
use pyrsedis.External.{External}
use pyrsedis.Text.Decimal.{to_string}

pub data GraphCommand : Type 0 where
  eval : (script : Bytes) (numkeys : ℕ) (args : List Bytes) → GraphCommand
  evalsha : (sha : Bytes) (numkeys : ℕ) (args : List Bytes) → GraphCommand
  script_load : (script : Bytes) → GraphCommand
  graph_query : (graph : Bytes) (query : Bytes) (timeout : Option ℕ) → GraphCommand
  graph_ro_query : (graph : Bytes) (query : Bytes) (timeout : Option ℕ) → GraphCommand
  graph_delete : (graph : Bytes) → GraphCommand
  graph_list : GraphCommand
  graph_explain : (graph : Bytes) (query : Bytes) → GraphCommand
  graph_profile : (graph : Bytes) (query : Bytes) → GraphCommand
  graph_slowlog : (graph : Bytes) → GraphCommand
  graph_config : (action : Bytes) (name : Bytes) (value : Option Bytes) → GraphCommand

module _ (x : External) where
  -- The arguments that the method of Redis sends.
  unfoldable pub redis_graph : GraphCommand → List Bytes
  redis_graph (eval script numkeys args) =
      push_each args (codes "EVAL" ∷ script ∷ to_string numkeys ∷ [])
  redis_graph (evalsha sha numkeys args) =
      push_each args (codes "EVALSHA" ∷ sha ∷ to_string numkeys ∷ [])
  redis_graph (script_load script) = codes "SCRIPT" ∷ codes "LOAD" ∷ script ∷ []
  redis_graph (graph_query graph query timeout) =
      push_timeout timeout (codes "GRAPH.QUERY" ∷ graph ∷ query ∷ codes "--compact" ∷ [])
  redis_graph (graph_ro_query graph query timeout) =
      push_timeout timeout (codes "GRAPH.RO_QUERY" ∷ graph ∷ query ∷ codes "--compact" ∷ [])
  redis_graph (graph_delete graph) = codes "GRAPH.DELETE" ∷ graph ∷ []
  redis_graph graph_list = codes "GRAPH.LIST" ∷ []
  redis_graph (graph_explain graph query) = codes "GRAPH.EXPLAIN" ∷ graph ∷ query ∷ []
  redis_graph (graph_profile graph query) = codes "GRAPH.PROFILE" ∷ graph ∷ query ∷ []
  redis_graph (graph_slowlog graph) = codes "GRAPH.SLOWLOG" ∷ graph ∷ []
  redis_graph (graph_config action name none) = codes "GRAPH.CONFIG" ∷ action ∷ name ∷ []
  redis_graph (graph_config action name (some value)) =
      codes "GRAPH.CONFIG" ∷ action ∷ name ∷ value ∷ []

  -- The command that the method of Pipeline pushes, where there is one.
  unfoldable pub pipeline_graph : GraphCommand → Option (List Bytes)
  pipeline_graph (graph_query graph query timeout) =
      some (push_timeout timeout (codes "GRAPH.QUERY" ∷ graph ∷ query ∷ codes "--compact" ∷ []))
  pipeline_graph (graph_ro_query graph query timeout) =
      some (push_timeout timeout (codes "GRAPH.RO_QUERY" ∷ graph ∷ query ∷ codes "--compact" ∷ []))
  pipeline_graph (graph_delete graph) = some (codes "GRAPH.DELETE" ∷ graph ∷ [])
  pipeline_graph graph_list = some (codes "GRAPH.LIST" ∷ [])
  pipeline_graph _ = none

  pub pipeline_graph-SameArgs : (c : GraphCommand) → SameArgs (pipeline_graph c) (redis_graph c)
  unfolding redis_graph pipeline_graph SameArgs push extend
  pipeline_graph-SameArgs (eval script numkeys args) = tt
  pipeline_graph-SameArgs (evalsha sha numkeys args) = tt
  pipeline_graph-SameArgs (script_load script) = tt
  pipeline_graph-SameArgs (graph_query graph query timeout) = refl
  pipeline_graph-SameArgs (graph_ro_query graph query timeout) = refl
  pipeline_graph-SameArgs (graph_delete graph) = refl
  pipeline_graph-SameArgs graph_list = refl
  pipeline_graph-SameArgs (graph_explain graph query) = tt
  pipeline_graph-SameArgs (graph_profile graph query) = tt
  pipeline_graph-SameArgs (graph_slowlog graph) = tt
  pipeline_graph-SameArgs (graph_config action name none) = tt
  pipeline_graph-SameArgs (graph_config action name (some value)) = tt
