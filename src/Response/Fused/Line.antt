-- ===== src/Response/Fused/Line.antt =====
-- fused_find_crlf and fused_read_line of src/response.rs.
use pyrsedis.Prelude.{
  ℕ, ◌+◌, Option, none, some, Bytes, length, drop, leb, if◌then◌else◌, position, ℤ,
}
use pyrsedis.Error.{incomplete}
use pyrsedis.External.{External}
use pyrsedis.Outcome.{Outcome, ok, fail, ◌>>=◌}
use pyrsedis.Resp.Line.{cr, slice, crlf_at}
use pyrsedis.Response.Integer.{fused_parse_int}

-- A loop on what is short, and memchr on what is not.
unfoldable pub fused_search : External → Bytes → Option ℕ
fused_search x search = if leb (length search) 32 then position cr search else x.memchr cr search

-- The checks at the carriage return are those of find_crlf in src/resp/parser.rs.
unfoldable pub fused_find_crlf : External → Bytes → ℕ → Outcome ℕ
fused_find_crlf x buf offset = elim (fused_search x (drop offset buf)) [
  | none ↦ fail incomplete
  | some p ↦ crlf_at buf (offset + p)
]

unfoldable pub fused_read_line : External → Bytes → ℕ → Outcome (Bytes × ℕ)
fused_read_line x buf offset = do
  cr_at ← fused_find_crlf x buf offset
  ok (slice buf offset cr_at, cr_at + 2)

-- A line, and the integer on it.
unfoldable pub fused_read_int : External → Bytes → ℕ → Outcome (ℤ × ℕ)
fused_read_int x buf offset = do
  (line, next) ← fused_read_line x buf offset
  n ← fused_parse_int line
  ok (n, next)
