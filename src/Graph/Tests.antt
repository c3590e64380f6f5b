-- ===== src/Graph/Tests.antt =====
-- A result with one row, and the theorem at it.
use pyrsedis.Prelude.{pos, ◌≡◌, refl, true, [], ◌∷◌, codes}
use pyrsedis.External.Sample.{sample}
use pyrsedis.Graph.{scalar, GraphColumn, GraphStats, parse_graph_result}
use pyrsedis.Graph.Cells.{GraphValue, no_values, value, graph_node, no_properties, property}
use pyrsedis.Graph.Format.{
  cell, Payload, integer_payload, node_payload, no_triples, next_triple, no_cells, next_cell,
}
use pyrsedis.Graph.Results.{
  no_columns, next_column, no_rows, next_row, no_lines, next_line, parse_graph_result-Rows,
}
use pyrsedis.Outcome.{ok}
use pyrsedis.Resp.Types.{RespValue, nil, cons}
use pyrsedis.Text.Utf8.{is_utf8}

abbrev column_n : GraphColumn
column_n = record { column_type = scalar; name = codes "n" }

-- A node with one label and one property.
abbrev node_seven : GraphValue
node_seven =
    GraphValue.node (
      graph_node (pos 5) (pos 0 ∷ []) (property (pos 2) (GraphValue.integer (pos 7)) no_properties))

abbrev encoded_seven : RespValue
encoded_seven = RespValue.array (
    cons (RespValue.integer (pos 5)) (
      cons (RespValue.array (cons (RespValue.integer (pos 0)) nil)) (
        cons
          (RespValue.array (
            cons
              (RespValue.array (
                cons (RespValue.integer (pos 2))
                  (cons (RespValue.integer (pos 3)) (cons (RespValue.integer (pos 7)) nil))))
              nil))
          nil)))

seven_Payload : Payload sample node_seven 8 encoded_seven
seven_Payload = node_payload (next_triple integer_payload no_triples)

text_n : is_utf8 (codes "n") ≡ true
unfolding is_utf8
text_n = refl

text_time : is_utf8 (codes "Time: 1 ms") ≡ true
unfolding is_utf8
text_time = refl

parse_graph_result-Rows_example :
    (stats : GraphStats) × (parse_graph_result sample (
        RespValue.array (
          cons
            (RespValue.array (
              cons
                (RespValue.array
                  (cons (RespValue.integer (pos 1)) (cons (RespValue.bulk_string (codes "n")) nil)))
                nil))
            (cons (RespValue.array (cons (RespValue.array (cons (cell 8 encoded_seven) nil)) nil)) (
              cons (RespValue.array (cons (RespValue.bulk_string (codes "Time: 1 ms")) nil)) nil))))
      ≡ ok (record {
        columns = column_n ∷ [];
        rows = value node_seven no_values ∷ [];
        stats = stats;
      }))
    × (stats.raw ≡ codes "Time: 1 ms" ∷ [])
parse_graph_result-Rows_example =
    parse_graph_result-Rows sample (next_column text_n no_columns)
      (next_row (next_cell seven_Payload no_cells) no_rows) (next_line text_time no_lines)
