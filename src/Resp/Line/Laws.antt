-- ===== src/Resp/Line/Laws.antt =====
-- read_line of src/resp/parser.rs: where lines end, more bytes behind them, and written lines.
use pyrsedis.Prelude.{
  ℕ, ◌+◌, ◌-◌, ◌≤◌, ◌<◌, ◌≡◌, refl, subst, ◌∙◌, ◌≢◌, true, ◌&&◌, some, [], ◌∷◌, ◌++◌, Bytes, length,
  length-append, length-drop, get_elem?-append_left, get_elem?-append_right, take-append_left, drop,
  drop-append_left, take-append_length, ltb, leb, position, All, Option-cases, Bool-cases, ltb→lt,
  ==_iff, inl, inr, arith,
}
use pyrsedis.Error.{incomplete}
use pyrsedis.External.{External}
use pyrsedis.Outcome.{ok, fail}
use pyrsedis.Outcome.Rules.{Ensures, holds, fails, Ensures-ok, Ensures-if, Ensures-bind}
use pyrsedis.Outcome.Rules.{Settles, same, waits, Settles-bind}
use pyrsedis.Resp.Line.{cr, lf, byte_at, slice, crlf_at, find_crlf, read_line}

position-lt : (b : ℕ) (s : Bytes) {i : ℕ} → position b s ≡ some i → i < length s
position-lt b [] e = cc
position-lt b (c ∷ s) {i} e = elim (Option-cases (position b s)) [
  | inl h ↦ ground arith
  | inr (j, h) ↦ ground (arith, position-lt b s h)
]

position-append :
    (b : ℕ) (s t : Bytes) {i : ℕ} → position b s ≡ some i → position b (s ++ t) ≡ some i
position-append b [] t e = cc
position-append b (c ∷ s) t {i} e = elim (Option-cases (position b s)) [
  | inl h ↦ ground arith
  | inr (j, h) ↦ ground (arith, position-append b s t h)
]

-- Bytes with no carriage return among them.
abbrev pub IsPlain : Bytes → Type 0
IsPlain = All (λ c. c ≢ cr)

position-plain : (s t : Bytes) → IsPlain s → position cr (s ++ cr ∷ t) ≡ some (length s)
position-plain [] t h = refl
position-plain (c ∷ s) t (hc, hs) = ground (arith, position-plain s t hs)

crlf_at_bounds :
    (buf : Bytes) (offset abs : ℕ)
    → offset ≤ abs
    → Ensures ⊥ (λ at. (offset ≤ at) × (at + 2 ≤ length buf)) (crlf_at buf abs)
unfolding crlf_at
crlf_at_bounds buf offset abs le =
    Ensures-if (ltb (abs + 1) (length buf) && byte_at buf (abs + 1) lf)
      (λ h. holds (ground arith, ground arith))
      (λ h. Ensures-if (leb (length buf) (abs + 1)) (λ _. fails) (λ _. fails))

pub byte_at-append :
    (buf more : Bytes) (i b : ℕ) → i < length buf → byte_at (buf ++ more) i b ≡ byte_at buf i b
unfolding byte_at
byte_at-append buf more i b h = rw (get_elem?-append_left buf more i h, byte_at)

crlf_at-append :
    (buf more : Bytes) (abs : ℕ) → Settles (crlf_at buf abs) (crlf_at (buf ++ more) abs)
crlf_at-append buf more abs = elim (Bool-cases (ltb (abs + 1) (length buf))) [
  | inl inside ↦
      let e : crlf_at buf abs ≡ crlf_at (buf ++ more) abs =
        unfold crlf_at in
        ground (
          arith,
          byte_at-append buf more (abs + 1) lf (ltb→lt _ _ inside),
          length-append buf more,
        ) in
      same e
  | inr outside ↦
      let e : crlf_at buf abs ≡ fail incomplete = unfold crlf_at in ground arith in rw e waits
]

pub byte_at-written :
    (front : Bytes) (a b : ℕ) (rest : Bytes)
    → byte_at (front ++ a ∷ b ∷ rest) (length front + 1) b ≡ true
unfolding byte_at
byte_at-written front a b rest =
    rw (get_elem?-append_right front (a ∷ b ∷ rest) 1, byte_at) ((==_iff b b).1 refl)

pub slice-append :
    (buf more : Bytes) (from to : ℕ)
    → from ≤ length buf
    → to ≤ length buf
    → slice (buf ++ more) from to ≡ slice buf from to
unfolding slice
slice-append buf more from to hf ht =
    rw (drop-append_left from buf more hf)
      (take-append_left (to - from) (drop from buf) more (omega (arith, length-drop from buf)))

crlf_at-written :
    (c : ℕ) (line rest : Bytes)
    → crlf_at (c ∷ line ++ cr ∷ lf ∷ rest) (1 + length line) ≡ ok (1 + length line)
unfolding crlf_at
crlf_at-written c line rest = ground (arith, ends, length-append line (cr ∷ lf ∷ rest))
  where
    ends : byte_at (c ∷ line ++ cr ∷ lf ∷ rest) (1 + length line + 1) lf ≡ true
    ends =
        subst (λ k. byte_at (c ∷ line ++ cr ∷ lf ∷ rest) k lf ≡ true) (omega arith)
          (byte_at-written (c ∷ line) cr lf rest)

slice-written : (c : ℕ) (line rest : Bytes) → slice (c ∷ line ++ rest) 1 (1 + length line) ≡ line
unfolding slice
slice-written c line rest =
    let e : 1 + length line - 1 ≡ length line = omega arith in rw e (take-append_length line rest)

module _ (x : External) where
  pub find_crlf_bounds :
      (buf : Bytes) (offset : ℕ)
      → Ensures ⊥ (λ at. (offset ≤ at) × (at + 2 ≤ length buf)) (find_crlf x buf offset)
  unfolding find_crlf
  find_crlf_bounds buf offset = elim (Option-cases (x.memchr cr (drop offset buf))) [
    | inl e ↦ rw (e, find_crlf) fails
    | inr (p, e) ↦ rw (e, find_crlf) (crlf_at_bounds buf offset (offset + p) (omega arith))
  ]

  -- A line ends inside the buffer, two bytes behind its text at least.
  pub read_line_bounds :
      (buf : Bytes) (offset : ℕ)
      → Ensures ⊥ (λ r. (offset + 2 ≤ r.1) × (r.1 ≤ length buf)) (read_line x buf offset)
  unfolding read_line
  read_line_bounds buf offset =
      Ensures-bind (find_crlf_bounds buf offset) (λ s. s)
        λ at (lo, hi). holds (omega arith, omega arith)

  find_crlf-append :
      (buf more : Bytes) (offset : ℕ)
      → offset ≤ length buf
      → Settles (find_crlf x buf offset) (find_crlf x (buf ++ more) offset)
  unfolding find_crlf
  find_crlf-append buf more offset h = elim (Option-cases (x.memchr cr (drop offset buf))) [
    | inl e ↦ rw (e, find_crlf) waits
    | inr (p, e) ↦
        let first : position cr (drop offset buf) ≡ some p =
          cc (x.memchr-first cr (drop offset buf)) in
        let later : x.memchr cr (drop offset (buf ++ more)) ≡ some p =
          rw (drop-append_left offset buf more h, x.memchr-first)
            (position-append cr (drop offset buf) more first) in
        rw (e, later, find_crlf) (crlf_at-append buf more (offset + p))
  ]

  -- More bytes behind a buffer change a line that is read from it only if it was not complete.
  pub read_line-append :
      (buf more : Bytes) (offset : ℕ)
      → offset ≤ length buf
      → Settles (read_line x buf offset) (read_line x (buf ++ more) offset)
  unfolding read_line
  read_line-append buf more offset h = Settles-bind (find_crlf-append buf more offset h) λ at e.
      let (lo, hi) = Ensures-ok (find_crlf_bounds buf offset) e in
      same (rw (slice-append buf more offset at h (omega arith)))

  find_crlf-written :
      (c : ℕ) (line rest : Bytes)
      → IsPlain line
      → find_crlf x (c ∷ line ++ cr ∷ lf ∷ rest) 1 ≡ ok (1 + length line)
  unfolding find_crlf
  find_crlf-written c line rest h =
      let e : x.memchr cr (line ++ cr ∷ lf ∷ rest) ≡ some (length line) =
        x.memchr-first _ _ ∙ position-plain line (lf ∷ rest) h in
      rw (e, find_crlf) (crlf_at-written c line rest)

  -- A written line is read back behind the byte that stands before it.
  pub read_line-written :
      (c : ℕ) (line rest : Bytes)
      → IsPlain line
      → read_line x (c ∷ line ++ cr ∷ lf ∷ rest) 1 ≡ ok (line, length line + 3)
  unfolding read_line
  read_line-written c line rest h =
      let next : 1 + length line + 2 ≡ length line + 3 = omega arith in
      rw (find_crlf-written c line rest h, read_line)
        (cc (slice-written c line (cr ∷ lf ∷ rest), next))
