-- ===== src/Graph.antt =====
-- src/graph.rs: the decoding of the compact results of GRAPH.QUERY. A float is its 64 bits, and a map of
-- the sources is the list of its items.
pub mod Cells
pub mod Format
pub mod Results
mod Tests
use pyrsedis.Prelude.{
  ℕ, ℤ, pos, negsuc, Bool, true, false, Option, none, some, List, [], ◌∷◌, ◌++◌, Bytes, codes,
  bytes_eq, ◌==◌, if◌then◌else◌,
}
use pyrsedis.Error.{graph, expected_array, short_result}
use pyrsedis.External.{External}
use pyrsedis.Graph.Cells.{GraphValues, unwrap_or, parse_cells}
use pyrsedis.Outcome.{Outcome, ok, fail, ◌>>=◌}
use pyrsedis.Resp.Types.{RespValue, Values, nil, cons, as_int, as_str, type_name}
use pyrsedis.Text.{split_once}
use pyrsedis.Text.Space.{trim}

pub data ColumnType : Type 0 where
  unknown scalar node relation : ColumnType

-- ColumnType::from_int.
unfoldable pub column_type_of : ℤ → ColumnType
column_type_of (pos i) =
    if i == 1 then scalar else if i == 2 then node else if i == 3 then relation else unknown
column_type_of (negsuc i) = unknown

pub record GraphColumn : Type 0 where
  pub column_type : ColumnType
  pub name : Bytes

pub record GraphStats : Type 0 where
  pub raw : List Bytes
  pub values : List (Bytes × Bytes)

pub record GraphResult : Type 0 where
  pub columns : List GraphColumn
  pub rows : List GraphValues
  pub stats : GraphStats

unfoldable pub parse_column : RespValue → GraphColumn
parse_column (RespValue.array (cons typ (cons name more))) = record {
  column_type = column_type_of (unwrap_or (as_int typ) (pos 0));
  name = unwrap_or (as_str name) [];
}
parse_column _ = record { column_type = unknown; name = [] }

unfoldable pub parse_columns : Values → List GraphColumn
parse_columns nil = []
parse_columns (cons item items) = parse_column item ∷ parse_columns items

unfoldable pub parse_header : RespValue → Outcome (List GraphColumn)
parse_header (RespValue.array items) = ok (parse_columns items)
parse_header _ = ok []

-- HashMap::insert.
unfoldable pub insert : Bytes → Bytes → List (Bytes × Bytes) → List (Bytes × Bytes)
insert key val [] = (key, val) ∷ []
insert key val ((k, v) ∷ entries) =
    let rest = insert key val entries in
    if bytes_eq k key then (key, val) ∷ entries else (k, v) ∷ rest

-- A line of the statistics, and what it adds to the values.
unfoldable pub add_stat : Bytes → GraphStats → GraphStats
add_stat s stats = record {
  raw = stats.raw ++ (s ∷ []);
  values = elim (split_once b':' s) [
    | none ↦ stats.values
    | some (key, val) ↦ insert (trim key) (trim val) stats.values
  ];
}

unfoldable pub add_stats : Values → GraphStats → GraphStats
add_stats nil stats = stats
add_stats (cons item items) stats = elim (as_str item) [
  | none ↦ add_stats items stats
  | some s ↦ add_stats items (add_stat s stats)
]

-- GraphStats::default.
abbrev pub no_stats : GraphStats
no_stats = record { raw = []; values = [] }

unfoldable pub parse_stats : RespValue → Outcome GraphStats
parse_stats (RespValue.array items) = ok (add_stats items no_stats)
parse_stats _ = ok no_stats

module _ (x : External) where
  -- The loop over the rows: what is no array is passed over.
  unfoldable pub parse_rows : Values → Outcome (List GraphValues)
  parse_rows nil = ok []
  parse_rows (cons (RespValue.array cells) rows) = do
    parsed_row ← parse_cells x cells
    parsed ← parse_rows rows
    ok (parsed_row ∷ parsed)
  parse_rows (cons _ rows) = parse_rows rows

  unfoldable pub parse_result_set : RespValue → Outcome (List GraphValues)
  parse_result_set (RespValue.array rows) = parse_rows rows
  parse_result_set _ = ok []

  unfoldable pub parse_graph_result : RespValue → Outcome GraphResult
  parse_graph_result (RespValue.array nil) = fail (graph (short_result 0))
  parse_graph_result (RespValue.array (cons only nil)) = do
    stats ← parse_stats only
    ok (record { columns = []; rows = []; stats = stats })
  parse_graph_result (RespValue.array (cons header (cons body nil))) = fail (graph (short_result 2))
  parse_graph_result (RespValue.array (cons header (cons body (cons footer more)))) = do
    columns ← parse_header header
    rows ← parse_result_set body
    stats ← parse_stats footer
    ok (record { columns = columns; rows = rows; stats = stats })
  parse_graph_result other = fail (graph (expected_array (type_name other)))
