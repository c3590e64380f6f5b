-- ===== src/Graph/Results.antt =====
-- src/graph.rs: a whole result of GRAPH.QUERY.
use pyrsedis.Prelude.{
  ℕ, pos, ◌≡◌, refl, ◌∙◌, true, List, [], ◌∷◌, ◌++◌, append_assoc, append-nil, sym, Bytes,
}
use pyrsedis.External.{External}
use pyrsedis.Graph.{
  ColumnType, unknown, scalar, node, relation, column_type_of, GraphColumn, GraphStats,
  parse_column, parse_columns, parse_header, add_stat, add_stats, no_stats, parse_stats, parse_rows,
  parse_result_set, parse_graph_result,
}
use pyrsedis.Graph.Cells.{GraphValues, unwrap_or}
use pyrsedis.Graph.Format.{Cells, parse_cells-Cells}
use pyrsedis.Outcome.{ok}
use pyrsedis.Resp.Types.{RespValue, Values, nil, cons, as_int, as_str}
use pyrsedis.Text.Utf8.{is_utf8}

-- The numbers of the types of columns.
abbrev pub column_number : ColumnType → ℕ
column_number unknown = 0
column_number scalar = 1
column_number node = 2
column_number relation = 3

-- `[type, name]` for each column.
pub data Columns : List GraphColumn → Values → Type 0 where
  no_columns : Columns [] nil
  next_column :
      {c : GraphColumn} {cs : List GraphColumn} {rs : Values}
      → is_utf8 c.name ≡ true
      → Columns cs rs
      → Columns (c ∷ cs) (
          cons
            (RespValue.array (
              cons
                (RespValue.integer (pos (column_number c.column_type)))
                (cons (RespValue.bulk_string c.name) nil)))
            rs)

-- An array of cells for each row.
pub data Rows (x : External) : List GraphValues → Values → Type 0 where
  no_rows : Rows x [] nil
  next_row :
      {vs : GraphValues} {cells : Values} {rows : List GraphValues} {rs : Values}
      → Cells x vs cells
      → Rows x rows rs
      → Rows x (vs ∷ rows) (cons (RespValue.array cells) rs)

-- A text for each line of the statistics.
pub data Lines : List Bytes → Values → Type 0 where
  no_lines : Lines [] nil
  next_line :
      {s : Bytes} {lines : List Bytes} {rs : Values}
      → is_utf8 s ≡ true
      → Lines lines rs
      → Lines (s ∷ lines) (cons (RespValue.bulk_string s) rs)

column_type_of-number : (t : ColumnType) → column_type_of (pos (column_number t)) ≡ t
unfolding column_type_of
column_type_of-number unknown = refl
column_type_of-number scalar = refl
column_type_of-number node = refl
column_type_of-number relation = refl

parse_columns-Columns :
    {cs : List GraphColumn} {rs : Values} → Columns cs rs → parse_columns rs ≡ cs
unfolding parse_columns parse_column as_int as_str unwrap_or
parse_columns-Columns no_columns = refl
parse_columns-Columns (next_column {c} u cs) =
    rw (as_str, u, column_type_of-number c.column_type, parse_columns-Columns cs) refl

parse_rows-Rows :
    (x : External) {rows : List GraphValues} {rs : Values}
    → Rows x rows rs
    → parse_rows x rs ≡ ok rows
unfolding parse_rows
parse_rows-Rows x no_rows = refl
parse_rows-Rows x (next_row cs rows) = rw (parse_cells-Cells x cs, parse_rows-Rows x rows) refl

add_stats-Lines :
    {lines : List Bytes} {rs : Values} (stats : GraphStats)
    → Lines lines rs
    → (add_stats rs stats).raw ≡ stats.raw ++ lines
unfolding add_stats add_stat as_str
add_stats-Lines stats no_lines = sym (append-nil stats.raw)
add_stats-Lines stats (next_line {s} {lines} u ls) =
    rw (add_stats, as_str, u)
      (add_stats-Lines (add_stat s stats) ls ∙ append_assoc stats.raw (s ∷ []) lines)

-- A result in the compact format is decoded into the columns, the rows with their values and the lines
-- of the statistics that it stands for, nested values of every kind included.
pub parse_graph_result-Rows :
    (x : External) {columns : List GraphColumn} {rows : List GraphValues} {lines : List Bytes}
    {header body footer : Values}
    → Columns columns header
    → Rows x rows body
    → Lines lines footer
    → (stats : GraphStats) × (parse_graph_result x (
          RespValue.array (
            cons
              (RespValue.array header)
              (cons (RespValue.array body) (cons (RespValue.array footer) nil))))
        ≡ ok (record { columns = columns; rows = rows; stats = stats }))
      × (stats.raw ≡ lines)
unfolding parse_graph_result parse_header parse_result_set parse_stats
parse_graph_result-Rows x {footer = footer} cs rs ls = (
  add_stats footer no_stats,
  rw (parse_columns-Columns cs, parse_rows-Rows x rs) refl,
  add_stats-Lines no_stats ls,
)
