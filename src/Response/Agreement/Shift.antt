-- ===== src/Response/Agreement/Shift.antt =====
-- Lines, integers and texts at an offset: what the helpers of src/response.rs read in the whole buffer
-- is what those of src/resp/parser.rs read in the part from the offset on.
use pyrsedis.Prelude.{
  ℕ, ◌+◌, ◌-◌, ◌≡◌, refl, sym, ap, ◌∙◌, Option, none, some, Bytes, length, take, drop, drop-drop,
  length-drop, get_elem?-drop, leb, le→ltb, ltb→le, arith, position, Bool-cases, inl, inr,
}
use pyrsedis.Error.{Part}
use pyrsedis.External.{External}
use pyrsedis.Outcome.{ok}
use pyrsedis.Outcome.Rules.{Ensures, holds, Ensures-of, Ensures-bind, Ensures-refuse}
use pyrsedis.Resp.Line.{cr, lf, byte_at, slice, crlf_at, find_crlf, read_line, parse_int_from_bytes}
use pyrsedis.Resp.Parser.{read_int, read_text}
use pyrsedis.Response.Fused.{text_end}
use pyrsedis.Response.Fused.Line.{fused_search, fused_find_crlf, fused_read_line, fused_read_int}
use pyrsedis.Response.Integer.Laws.{fused_parse_int-parse_int_from_bytes}
use pyrsedis.Response.Python.{done, raise_if}

fused_search-position : (x : External) (s : Bytes) → fused_search x s ≡ position cr s
unfolding fused_search
fused_search-position x s = elim (Bool-cases (leb (length s) 32)) [
  | inl short ↦ rw short refl
  | inr long ↦ rw long (x.memchr-first cr s)
]

module _ (buf : Bytes) (at : ℕ) where
  pub byte_at-drop : (i b : ℕ) → byte_at (drop at buf) i b ≡ byte_at buf (at + i) b
  unfolding byte_at
  byte_at-drop i b = rw (byte_at, get_elem?-drop at buf i) refl

  pub slice-drop : (from to : ℕ) → slice (drop at buf) from to ≡ slice buf (at + from) (at + to)
  unfolding slice
  slice-drop from to =
      ap (take (to - from)) (drop-drop at from buf)
      ∙ ap (λ n. take n (drop (at + from) buf)) {x = to - from} {y = at + to - (at + from)}
          (omega arith)

  crlf_at-drop :
      (abs : ℕ) {r : ℕ}
      → crlf_at (drop at buf) abs ≡ ok r
      → (r ≡ abs) × (crlf_at buf (at + abs) ≡ ok (at + abs))
  unfolding crlf_at
  crlf_at-drop abs h = ground (arith, byte_at-drop (abs + 1) lf, length-drop at buf)

  find_crlf-drop :
      (x : External) (offset : ℕ) {r : ℕ}
      → find_crlf x (drop at buf) offset ≡ ok r
      → fused_find_crlf x buf (at + offset) ≡ ok (at + r)
  unfolding find_crlf fused_find_crlf
  find_crlf-drop x offset {r} h = found (position cr (drop (at + offset) buf)) refl
    where
      same : x.memchr cr (drop offset (drop at buf)) ≡ position cr (drop (at + offset) buf)
      same =
          x.memchr-first cr (drop offset (drop at buf)) ∙ ap (position cr) (drop-drop at offset buf)

      found :
          (o : Option ℕ)
          → position cr (drop (at + offset) buf) ≡ o
          → fused_find_crlf x buf (at + offset) ≡ ok (at + r)
      found none e = let h' = rw (find_crlf, same, e) at h in cc
      found (some p) e =
          let h' : crlf_at (drop at buf) (offset + p) ≡ ok r = rw (find_crlf, same, e) at h in
          let moved = crlf_at-drop (offset + p) {r = r} h' in
          rw (fused_find_crlf, fused_search-position x (drop (at + offset) buf), e)
            (ap (crlf_at buf) {x = at + offset + p} {y = at + (offset + p)} (omega arith)
              ∙ moved.1
              ∙ ap (λ n. ok (at + n)) (sym moved.0))

  pub line_shift :
      (x : External)
      → Ensures
          (Unit {0})
          (λ r. fused_read_line x buf (at + 1) ≡ ok (r.0, at + r.1))
          (read_line x (drop at buf) 1)
  unfolding read_line fused_read_line slice
  line_shift x =
      Ensures-bind (Ensures-of (find_crlf x (drop at buf) 1) (λ r h. find_crlf-drop x 1 {r = r} h))
        (λ s. s)
        λ stop e. holds (
          rw (fused_read_line, e)
            (ap (λ (t : Bytes). ok (t, at + stop + 2)) (sym (slice-drop 1 stop))
              ∙ ap (λ (n : ℕ). ok (slice (drop at buf) 1 stop, n)) {x = at + stop + 2}
                  {y = at + (stop + 2)} (omega arith)))

  pub int_shift :
      (x : External)
      → Ensures
          (Unit {0})
          (λ r. fused_read_int x buf (at + 1) ≡ ok (r.0, at + r.1))
          (read_int x (drop at buf))
  unfolding read_int fused_read_int
  int_shift x =
      Ensures-bind (line_shift x) (λ s. s)
        λ (line, next) e.
          Ensures-bind
            (Ensures-of (parse_int_from_bytes line)
              λ n h. fused_parse_int-parse_int_from_bytes line {n = n} h)
            (λ s. s) λ n p. holds (rw (fused_read_int, e, p) refl)

  -- A text that is all there: where it stops, and its bytes.
  pub text_shift :
      (part : Part) (next len : ℕ)
      → Ensures
          (Unit {0})
          (λ t.
            (text_end buf (at + next) len ≡ done (at + (next + len + 2)))
            × (slice buf (at + next) (at + next + len) ≡ t))
          (read_text part (drop at buf) next len)
  unfolding read_text text_end raise_if
  text_shift part next len = Ensures-refuse _ _ λ enough. Ensures-refuse _ _ λ _. holds (
    rw
        (
          text_end,
          le→ltb (length buf) (at + next + len + 2) (
              omega
                (arith, ltb→le (length (drop at buf)) (next + len + 2) enough, length-drop at buf)),
          raise_if,
        )
        (ap done {x = at + next + len + 2} {y = at + (next + len + 2)} (omega arith)),
    ap (slice buf (at + next)) {x = at + next + len} {y = at + (next + len)} (omega arith)
        ∙ sym (slice-drop next (next + len)),
  )
