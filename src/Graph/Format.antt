-- ===== src/Graph/Format.antt =====
-- src/graph.rs: the compact format of the results, as its module comment and FalkorDB give it, as a
-- relation between values and the RESP that stands for them.
use pyrsedis.Prelude.{ℕ, ℤ, pos, ◌≡◌, refl, true, false, some, List, [], ◌∷◌, Bytes, codes}
use pyrsedis.External.{External}
use pyrsedis.Graph.Cells.{
  GraphValue, GraphValues, no_values, value, GraphNode, graph_node, GraphEdge, graph_edge,
  GraphNodes, no_nodes, next_node, GraphEdges, no_edges, next_edge, Entries, no_entries, entry,
  Properties, no_properties, property, scalar_type_of, unwrap_or, label_ids, parse_labels,
  push_node, push_edge, parse_f64_of, parse_double_text, coordinate, parse_cell, parse_scalar,
  parse_cells, parse_path_nodes, parse_nodes, parse_path_edges, parse_edges, parse_entries,
  parse_node, parse_edge, parse_properties, parse_triples,
}
use pyrsedis.Outcome.{ok}
use pyrsedis.Resp.Types.{RespValue, Values, nil, cons, as_int, as_str}
use pyrsedis.Text.Utf8.{is_utf8}

-- `[type, value]`.
abbrev pub cell : ℕ → RespValue → RespValue
cell n r = RespValue.array (cons (RespValue.integer (pos n)) (cons r nil))

abbrev pub integers : List ℤ → Values
integers [] = nil
integers (i ∷ is) = cons (RespValue.integer i) (integers is)

abbrev numbers : List ℤ → Values → Values
numbers [] rest = rest
numbers (i ∷ is) rest = cons (RespValue.integer i) (numbers is rest)

-- The text of a float.
pub record FloatText (x : External) (s : Bytes) (f : ℕ) : Type 0 where
  pub readable : is_utf8 s ≡ true
  pub parsed : x.parse_f64 s ≡ some f

module _ (x : External) where
  mutual
    -- A value, the number of its type and what stands for it.
    pub data Payload : GraphValue → ℕ → RespValue → Type 0 where
      null_payload : {r : RespValue} → Payload GraphValue.null 1 r
      string_payload :
          {s : Bytes} → is_utf8 s ≡ true → Payload (GraphValue.string s) 2 (RespValue.bulk_string s)
      integer_payload : {i : ℤ} → Payload (GraphValue.integer i) 3 (RespValue.integer i)
      true_payload : Payload (GraphValue.boolean true) 4 (RespValue.bulk_string (codes "true"))
      false_payload : Payload (GraphValue.boolean false) 4 (RespValue.bulk_string (codes "false"))
      double_payload :
          {s : Bytes} {f : ℕ}
          → FloatText x s f
          → Payload (GraphValue.double f) 5 (RespValue.bulk_string s)
      array_payload :
          {vs : GraphValues} {cells : Values}
          → Cells vs cells
          → Payload (GraphValue.array vs) 6 (RespValue.array cells)
      edge_payload :
          {id typ src dst : ℤ} {ps : Properties} {props : Values}
          → Triples ps props
          → Payload (GraphValue.edge (graph_edge id typ src dst ps)) 7 (
              RespValue.array
                (numbers (id ∷ typ ∷ src ∷ dst ∷ []) (cons (RespValue.array props) nil)))
      node_payload :
          {id : ℤ} {labels : List ℤ} {ps : Properties} {props : Values}
          → Triples ps props
          → Payload (GraphValue.node (graph_node id labels ps)) 8 (
              RespValue.array (
                cons
                  (RespValue.integer id)
                  (cons (RespValue.array (integers labels)) (cons (RespValue.array props) nil))))
      path_payload :
          {ns : GraphNodes} {es : GraphEdges} {front back : Values}
          → NodeCells ns front
          → EdgeCells es back
          → Payload
              (GraphValue.path ns es)
              9
              (RespValue.array (cons (RespValue.array front) (cons (RespValue.array back) nil)))
      map_payload :
          {ps : Entries} {items : Values}
          → Items ps items
          → Payload (GraphValue.map ps) 10 (RespValue.array items)
      point_payload :
          {s t : Bytes} {latitude longitude : ℕ}
          → FloatText x s latitude
          → FloatText x t longitude
          → Payload (GraphValue.point latitude longitude) 11 (
              RespValue.array (cons (RespValue.bulk_string s) (cons (RespValue.bulk_string t) nil)))

    pub data Cells : GraphValues → Values → Type 0 where
      no_cells : Cells no_values nil
      next_cell :
          {v : GraphValue} {n : ℕ} {r : RespValue} {vs : GraphValues} {rs : Values}
          → Payload v n r
          → Cells vs rs
          → Cells (value v vs) (cons (cell n r) rs)

    pub data NodeCells : GraphNodes → Values → Type 0 where
      no_node_cells : NodeCells no_nodes nil
      next_node_cell :
          {node : GraphNode} {n : ℕ} {r : RespValue} {ns : GraphNodes} {rs : Values}
          → Payload (GraphValue.node node) n r
          → NodeCells ns rs
          → NodeCells (next_node node ns) (cons (cell n r) rs)

    pub data EdgeCells : GraphEdges → Values → Type 0 where
      no_edge_cells : EdgeCells no_edges nil
      next_edge_cell :
          {edge : GraphEdge} {n : ℕ} {r : RespValue} {es : GraphEdges} {rs : Values}
          → Payload (GraphValue.edge edge) n r
          → EdgeCells es rs
          → EdgeCells (next_edge edge es) (cons (cell n r) rs)

    -- Keys and values by turns.
    pub data Items : Entries → Values → Type 0 where
      no_items : Items no_entries nil
      next_item :
          {k : Bytes} {v : GraphValue} {n : ℕ} {r : RespValue} {ps : Entries} {rs : Values}
          → is_utf8 k ≡ true
          → Payload v n r
          → Items ps rs
          → Items (entry k v ps) (cons (RespValue.bulk_string k) (cons (cell n r) rs))

    -- `[id, type, value]` for each property.
    pub data Triples : Properties → Values → Type 0 where
      no_triples : Triples no_properties nil
      next_triple :
          {i : ℤ} {v : GraphValue} {n : ℕ} {r : RespValue} {ps : Properties} {rs : Values}
          → Payload v n r
          → Triples ps rs
          → Triples
              (property i v ps)
              (cons (RespValue.array (numbers (i ∷ pos n ∷ []) (cons r nil))) rs)

  text_utf8 : (is_utf8 (codes "true") ≡ true) × (is_utf8 (codes "false") ≡ true)
  unfolding is_utf8
  text_utf8 = (refl, refl)

  coordinate-FloatText :
      {s : Bytes} {f : ℕ} → FloatText x s f → coordinate x (RespValue.bulk_string s) ≡ f
  unfolding coordinate as_str parse_f64_of
  coordinate-FloatText h = rw (coordinate, as_str, h.readable, parse_f64_of, h.parsed) refl

  label_ids-integers : (is : List ℤ) → label_ids (integers is) ≡ is
  unfolding label_ids as_int unwrap_or
  label_ids-integers [] = refl
  label_ids-integers (i ∷ is) = rw (label_ids-integers is) refl

  mutual
    unfolding scalar_type_of unwrap_or parse_labels as_int as_str parse_double_text push_node
        push_edge parse_cell parse_scalar parse_cells parse_path_nodes parse_nodes parse_path_edges
        parse_edges parse_entries parse_node parse_edge parse_properties parse_triples

    pub parse_scalar-Payload :
        {v : GraphValue} {n : ℕ} {r : RespValue}
        → Payload v n r
        → parse_scalar x (scalar_type_of (pos n)) r ≡ ok v
    parse_scalar-Payload null_payload = refl
    parse_scalar-Payload (string_payload u) = rw u refl
    parse_scalar-Payload integer_payload = refl
    parse_scalar-Payload true_payload = rw (text_utf8.0) refl
    parse_scalar-Payload false_payload = rw (text_utf8.1) refl
    parse_scalar-Payload (double_payload f) = rw (f.readable, f.parsed) refl
    parse_scalar-Payload (array_payload cs) = rw (parse_cells-Cells cs) refl
    parse_scalar-Payload (edge_payload ps) = rw (parse_triples-Triples ps) refl
    parse_scalar-Payload (node_payload {labels = labels} ps) =
        rw (parse_triples-Triples ps, label_ids-integers labels) refl
    parse_scalar-Payload (path_payload ns es) =
        rw (parse_nodes-NodeCells ns, parse_edges-EdgeCells es) refl
    parse_scalar-Payload (map_payload ps) = rw (parse_entries-Items ps) refl
    parse_scalar-Payload (point_payload a b) =
        rw (coordinate-FloatText a, coordinate-FloatText b) refl

    pub parse_cells-Cells :
        {vs : GraphValues} {rs : Values} → Cells vs rs → parse_cells x rs ≡ ok vs
    parse_cells-Cells no_cells = refl
    parse_cells-Cells (next_cell p cs) = rw (parse_scalar-Payload p, parse_cells-Cells cs) refl

    parse_nodes-NodeCells :
        {ns : GraphNodes} {rs : Values} → NodeCells ns rs → parse_nodes x rs ≡ ok ns
    parse_nodes-NodeCells no_node_cells = refl
    parse_nodes-NodeCells (next_node_cell p cs) =
        rw (parse_scalar-Payload p, parse_nodes-NodeCells cs) refl

    parse_edges-EdgeCells :
        {es : GraphEdges} {rs : Values} → EdgeCells es rs → parse_edges x rs ≡ ok es
    parse_edges-EdgeCells no_edge_cells = refl
    parse_edges-EdgeCells (next_edge_cell p cs) =
        rw (parse_scalar-Payload p, parse_edges-EdgeCells cs) refl

    parse_entries-Items : {ps : Entries} {rs : Values} → Items ps rs → parse_entries x rs ≡ ok ps
    parse_entries-Items no_items = refl
    parse_entries-Items (next_item u p is) =
        rw (parse_scalar-Payload p, parse_entries-Items is, u) refl

    parse_triples-Triples :
        {ps : Properties} {rs : Values} → Triples ps rs → parse_triples x rs ≡ ok ps
    parse_triples-Triples no_triples = refl
    parse_triples-Triples (next_triple p ts) =
        rw (parse_scalar-Payload p, parse_triples-Triples ts) refl
