-- ===== src/Response/Bounds/Line.antt =====
-- The helpers of src/response.rs: each ends, and where it stops.
use pyrsedis.Prelude.{
  ℕ, ◌+◌, ◌≤◌, ◌<◌, ◌≡◌, ◌≢◌, Bool, true, false, Option, none, some, [], ◌∷◌, Bytes, length, drop,
  ltb, ltb→le, ◌==◌, if◌then◌else◌, arith, ℤ, Bool-cases, inl, inr,
}
use pyrsedis.Error.{PyrsedisError, Part, incomplete}
use pyrsedis.External.{External}
use pyrsedis.Outcome.{Outcome, ok, fail, ok_or}
use pyrsedis.Resp.Line.{crlf_at, slice}
use pyrsedis.Resp.Parser.{utf8}
use pyrsedis.Response.Fused.{validated_count, text_end}
use pyrsedis.Response.Fused.Line.{fused_search, fused_find_crlf, fused_read_line, fused_read_int}
use pyrsedis.Response.Integer.{check_from, find_invalid, fused_digits, fused_parse_int}
use pyrsedis.Response.Python.{lift}
use pyrsedis.Response.Python.Rules.{
  Yields, yields, raises, Yields-weaken, Yields-lift, Yields-raise_if, Yields-lift_bind,
}

-- What was read ends behind the offset and inside the buffer.
abbrev pub Ahead : {A : Type 0} → Bytes → ℕ → A × ℕ → Type 0
Ahead buf offset r = (offset < r.1) × (r.1 ≤ length buf)

crlf_at-Yields :
    (buf : Bytes) (abs : ℕ)
    → Yields (λ r. (r ≡ abs) × (abs + 2 ≤ length buf)) (lift (crlf_at buf abs))
unfolding crlf_at
crlf_at-Yields buf abs =
    Yields-lift (crlf_at buf abs) (λ e. ground arith) (λ e. ground arith)
      (λ r e. (ground arith, ground arith))

found-Yields :
    (buf : Bytes) (offset : ℕ) (o : Option ℕ)
    → Yields
        (λ r. (offset ≤ r) × (r + 2 ≤ length buf))
        (lift (elim o [ none ↦ fail incomplete | some p ↦ crlf_at buf (offset + p) ]))
found-Yields buf offset none = unfold lift in raises
found-Yields buf offset (some p) =
    Yields-weaken (crlf_at-Yields buf (offset + p)) (λ r h. (omega arith, omega arith))

find_crlf-Yields :
    (x : External) (buf : Bytes) (offset : ℕ)
    → Yields (λ r. (offset ≤ r) × (r + 2 ≤ length buf)) (lift (fused_find_crlf x buf offset))
unfolding fused_find_crlf
find_crlf-Yields x buf offset = found-Yields buf offset (fused_search x (drop offset buf))

pub read_line-Yields :
    (x : External) (buf : Bytes) (offset : ℕ)
    → Yields (Ahead buf offset) (lift (fused_read_line x buf offset))
unfolding fused_read_line
read_line-Yields x buf offset =
    Yields-lift_bind (fused_find_crlf x buf offset) _ (find_crlf-Yields x buf offset)
      λ stop (lo, hi).
        unfold lift in yields {a = (slice buf offset stop, stop + 2)} (omega arith, omega arith)

find_invalid_ends :
    (s : Bytes) → (find_invalid s ≢ Outcome.panic) × (find_invalid s ≢ Outcome.stuck)
unfolding find_invalid
find_invalid_ends [] = (λ e. cc, λ e. cc)
find_invalid_ends (b ∷ s) =
    let (np, ns) = find_invalid_ends s in (λ e. ground arith, λ e. ground arith)

digits-Yields :
    (negative : Bool) (s : Bytes) → Yields (λ _. Unit {0}) (lift (fused_digits negative s))
unfolding fused_digits
digits-Yields negative [] = unfold lift in raises
digits-Yields negative (b ∷ s) =
    let (np, ns) = find_invalid_ends (b ∷ s) in
    let checked = if ltb 9 (check_from 0 (b ∷ s)) then find_invalid (b ∷ s) else ok tt in
    Yields-lift_bind checked _
      (Yields-lift {P = λ _. Unit {0}} checked (λ e. ground arith) (λ e. ground arith) (λ r e. tt))
      λ _ _. unfold lift in yields tt

parse_int-Yields : (s : Bytes) → Yields (λ _. Unit {0}) (lift (fused_parse_int s))
unfolding fused_parse_int
parse_int-Yields [] = unfold lift in raises
parse_int-Yields (b ∷ s) = elim (Bool-cases (b == b'-')) [
  | inl minus ↦ rw minus (digits-Yields true s)
  | inr other ↦ elim (Bool-cases (b == b'+')) [
    | inl plus ↦ rw (other, plus) (digits-Yields false s)
    | inr digit ↦ rw (other, digit) (digits-Yields false (b ∷ s))
  ]
]

pub read_int-Yields :
    (x : External) (buf : Bytes) (offset : ℕ)
    → Yields (Ahead buf offset) (lift (fused_read_int x buf offset))
unfolding fused_read_int
read_int-Yields x buf offset =
    Yields-lift_bind (fused_read_line x buf offset) _ (read_line-Yields x buf offset)
      λ (line, next) (lo, hi).
        Yields-lift_bind (fused_parse_int line) _ (parse_int-Yields line)
          λ n _. unfold lift in yields {a = (n, next)} (lo, hi)

pub utf8-Yields : (part : Part) (s : Bytes) → Yields (λ _. Unit {0}) (lift (utf8 part s))
unfolding utf8
utf8-Yields part s = Yields-lift (utf8 part s) (λ e. ground arith) (λ e. ground arith) (λ r e. tt)

pub ok_or-Yields :
    {A : Type 0} (o : Option A) (e : PyrsedisError) → Yields (λ _. Unit {0}) (lift (ok_or o e))
unfolding ok_or lift
ok_or-Yields none e = raises
ok_or-Yields (some a) e = yields tt

pub validated-Yields : (n : ℤ) → Yields (λ _. Unit {0}) (validated_count n)
unfolding validated_count
validated-Yields n = Yields-raise_if _ _ λ _. Yields-raise_if _ _ λ _. yields tt

pub text_end-Yields :
    (buf : Bytes) (next len : ℕ)
    → Yields (λ r. (next < r) × (r ≤ length buf)) (text_end buf next len)
unfolding text_end
text_end-Yields buf next len =
    Yields-raise_if (ltb (length buf) (next + len + 2)) _
      λ enough. yields (omega arith, omega (arith, ltb→le (length buf) (next + len + 2) enough))
