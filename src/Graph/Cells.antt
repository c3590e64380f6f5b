-- ===== src/Graph/Cells.antt =====
-- src/graph.rs: the values of a result, and how a cell becomes one.
use pyrsedis.Prelude.{
  ℕ, ℤ, pos, negsuc, ◌==◌, if◌then◌else◌, Bool, Option, none, some, List, [], ◌∷◌, Bytes, codes,
  bytes_eq,
}
use pyrsedis.External.{External}
use pyrsedis.Outcome.{Outcome, ok, ◌>>=◌}
use pyrsedis.Resp.Types.{RespValue, Values, nil, cons, as_int, as_str}

pub data ScalarType : Type 0 where
  null string integer boolean double array edge node path map point : ScalarType

-- ScalarType::from_int, and `unwrap_or(ScalarType::Null)`.
unfoldable pub scalar_type_of : ℤ → ScalarType
scalar_type_of (pos i) =
    if i == 2
    then string
    else if i == 3
    then integer
    else if i == 4
    then boolean
    else if i == 5
    then double
    else if i == 6
    then array
    else if i == 7
    then edge
    else if i == 8
    then node
    else if i == 9
    then path
    else if i == 10
    then map
    else if i == 11
    then point
    else null
scalar_type_of (negsuc i) = null

-- GraphValue and what is inside it. The vectors are data types of their own.
mutual
  pub data GraphValue : Type 0 where
    null : GraphValue
    string : Bytes → GraphValue
    integer : ℤ → GraphValue
    boolean : Bool → GraphValue
    double : ℕ → GraphValue
    array : GraphValues → GraphValue
    node : GraphNode → GraphValue
    edge : GraphEdge → GraphValue
    path : (nodes : GraphNodes) (edges : GraphEdges) → GraphValue
    map : Entries → GraphValue
    point : (latitude longitude : ℕ) → GraphValue

  pub data GraphValues : Type 0 where
    no_values : GraphValues
    value : GraphValue → GraphValues → GraphValues

  pub data GraphNode : Type 0 where
    graph_node : (id : ℤ) (labels : List ℤ) (properties : Properties) → GraphNode

  pub data GraphEdge : Type 0 where
    graph_edge : (id relation_type src_node dst_node : ℤ) (properties : Properties) → GraphEdge

  pub data GraphNodes : Type 0 where
    no_nodes : GraphNodes
    next_node : GraphNode → GraphNodes → GraphNodes

  pub data GraphEdges : Type 0 where
    no_edges : GraphEdges
    next_edge : GraphEdge → GraphEdges → GraphEdges

  pub data Entries : Type 0 where
    no_entries : Entries
    entry : Bytes → GraphValue → Entries → Entries

  pub data Properties : Type 0 where
    no_properties : Properties
    property : ℤ → GraphValue → Properties → Properties

-- Option::unwrap_or.
unfoldable pub unwrap_or : {A : Type 0} → Option A → A → A
unwrap_or none default = default
unwrap_or (some a) default = a

unfoldable pub label_ids : Values → List ℤ
label_ids nil = []
label_ids (cons v vs) = unwrap_or (as_int v) (pos 0) ∷ label_ids vs

unfoldable pub parse_labels : RespValue → List ℤ
parse_labels (RespValue.array ids) = label_ids ids
parse_labels _ = []

-- `if let GraphValue::Node(n)`.
unfoldable pub push_node : GraphValue → GraphNodes → GraphNodes
push_node (GraphValue.node n) ns = next_node n ns
push_node _ ns = ns

unfoldable pub push_edge : GraphValue → GraphEdges → GraphEdges
push_edge (GraphValue.edge e) es = next_edge e es
push_edge _ es = es

abbrev pub int_or_zero : RespValue → ℤ
int_or_zero v = unwrap_or (as_int v) (pos 0)

unfoldable pub parse_f64_of : External → Option Bytes → Option ℕ
parse_f64_of x none = none
parse_f64_of x (some s) = x.parse_f64 s

-- What anything but an array of enough elements is read as.
abbrev pub empty_node : GraphNode
empty_node = graph_node (pos 0) [] no_properties

abbrev pub empty_edge : GraphEdge
empty_edge = graph_edge (pos 0) (pos 0) (pos 0) (pos 0) no_properties

module _ (x : External) where
  -- `s.parse::<f64>().unwrap_or(0.0)`.
  unfoldable pub parse_double_text : RespValue → ℕ
  parse_double_text val = unwrap_or (x.parse_f64 (unwrap_or (as_str val) (codes "0"))) 0

  -- A coordinate: a text that is a float, or an integer.
  unfoldable pub coordinate : RespValue → ℕ
  coordinate v = elim (parse_f64_of x (as_str v)) [
    | some f ↦ f
    | none ↦ elim (as_int v) [ none ↦ 0 | some i ↦ x.f64_of_int i ]
  ]

  unfoldable mutual
    pub parse_cell : RespValue → Outcome GraphValue
    parse_cell (RespValue.array (cons type_id (cons val more))) =
        parse_scalar (scalar_type_of (unwrap_or (as_int type_id) (pos 1))) val
    parse_cell (RespValue.integer i) = ok (GraphValue.integer i)
    parse_cell _ = ok GraphValue.null

    pub parse_scalar : ScalarType → RespValue → Outcome GraphValue
    parse_scalar null val = ok GraphValue.null
    parse_scalar string val = ok (GraphValue.string (unwrap_or (as_str val) []))
    parse_scalar integer val = ok (GraphValue.integer (int_or_zero val))
    parse_scalar boolean val =
        ok (GraphValue.boolean (bytes_eq (unwrap_or (as_str val) (codes "false")) (codes "true")))
    parse_scalar double val = ok (GraphValue.double (parse_double_text val))
    parse_scalar array (RespValue.array items) = do
      result ← parse_cells items
      ok (GraphValue.array result)
    parse_scalar array _ = ok (GraphValue.array no_values)
    parse_scalar node (RespValue.array arr) = do n ← parse_node arr; ok (GraphValue.node n)
    parse_scalar node _ = ok (GraphValue.node empty_node)
    parse_scalar edge (RespValue.array arr) = do e ← parse_edge arr; ok (GraphValue.edge e)
    parse_scalar edge _ = ok (GraphValue.edge empty_edge)
    parse_scalar path (RespValue.array (cons front (cons back more))) = do
      ns ← parse_path_nodes front
      es ← parse_path_edges back
      ok (GraphValue.path ns es)
    parse_scalar path _ = ok (GraphValue.path no_nodes no_edges)
    parse_scalar map (RespValue.array items) = do
      pairs ← parse_entries items
      ok (GraphValue.map pairs)
    parse_scalar map _ = ok (GraphValue.map no_entries)
    parse_scalar point (RespValue.array (cons lat (cons lon more))) =
        ok (GraphValue.point (coordinate lat) (coordinate lon))
    parse_scalar point _ = ok (GraphValue.point 0 0)

    -- The loops over cells.
    pub parse_cells : Values → Outcome GraphValues
    parse_cells nil = ok no_values
    parse_cells (cons cell cells) = do v ← parse_cell cell; vs ← parse_cells cells; ok (value v vs)

    pub parse_path_nodes : RespValue → Outcome GraphNodes
    parse_path_nodes (RespValue.array cells) = parse_nodes cells
    parse_path_nodes _ = ok no_nodes

    pub parse_nodes : Values → Outcome GraphNodes
    parse_nodes nil = ok no_nodes
    parse_nodes (cons cell cells) = do
      v ← parse_cell cell
      ns ← parse_nodes cells
      ok (push_node v ns)

    pub parse_path_edges : RespValue → Outcome GraphEdges
    parse_path_edges (RespValue.array cells) = parse_edges cells
    parse_path_edges _ = ok no_edges

    pub parse_edges : Values → Outcome GraphEdges
    parse_edges nil = ok no_edges
    parse_edges (cons cell cells) = do
      v ← parse_cell cell
      es ← parse_edges cells
      ok (push_edge v es)

    pub parse_entries : Values → Outcome Entries
    parse_entries (cons key (cons cell items)) = do
      v ← parse_cell cell
      pairs ← parse_entries items
      ok (entry (unwrap_or (as_str key) []) v pairs)
    parse_entries _ = ok no_entries

    -- Of the elements of the array.
    pub parse_node : Values → Outcome GraphNode
    parse_node (cons id (cons labels (cons props more))) = do
      properties ← parse_properties props
      ok (graph_node (int_or_zero id) (parse_labels labels) properties)
    parse_node _ = ok empty_node

    pub parse_edge : Values → Outcome GraphEdge
    parse_edge (cons id (cons typ (cons src (cons dst (cons props more))))) = do
      properties ← parse_properties props
      ok (
          graph_edge (int_or_zero id) (int_or_zero typ) (int_or_zero src) (int_or_zero dst)
            properties)
    parse_edge _ = ok empty_edge

    pub parse_properties : RespValue → Outcome Properties
    parse_properties (RespValue.array items) = parse_triples items
    parse_properties _ = ok no_properties

    -- The loop over the properties: what is no triple is passed over.
    pub parse_triples : Values → Outcome Properties
    parse_triples nil = ok no_properties
    parse_triples (cons (RespValue.array (cons prop_id (cons type_id (cons val more)))) items) = do
      v ← parse_scalar (scalar_type_of (unwrap_or (as_int type_id) (pos 1))) val
      props ← parse_triples items
      ok (property (int_or_zero prop_id) v props)
    parse_triples (cons _ items) = parse_triples items
