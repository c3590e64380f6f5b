-- ===== src/Response/Agreement/Whole.antt =====
-- parse_to_python of src/response.rs against parse of src/resp/parser.rs followed by the conversion.
use pyrsedis.Prelude.{
  ℕ, zero, suc, ◌+◌, ◌-◌, ◌<◌, ◌≡◌, ◌⊎◌, inl, inr, refl, sym, ap, subst, ◌∙◌, Bool, some, [], ◌∷◌,
  Bytes, drop, get_elem?, get_elem?-drop, le→ltb, arith, length, ltb, Bool-cases,
}
use pyrsedis.External.{External}
use pyrsedis.Outcome.{ok}
use pyrsedis.Outcome.Rules.{Ensures, fails, starves, Ensures-of, Ensures-ok, Ensures-weaken}
use pyrsedis.Resp.Parser.{parse_tag, parse_within, parse}
use pyrsedis.Resp.Tag.{tag_of}
use pyrsedis.Resp.Types.{RespValue}
use pyrsedis.Response.Agreement.{convert, FitsValue}
use pyrsedis.Response.Agreement.Aggregates.{tag-Same}
use pyrsedis.Response.Agreement.Scalars.{Same}
use pyrsedis.Response.Fused.{
  max_parse_depth, inner_at, inner_tag, parse_inner, parse_fuel, parse_to_python,
}
use pyrsedis.Response.Python.{Python, done, ◌>>=◌, raise_if}

head_cases : (s : Bytes) → (s ≡ []) ⊎ ((b : ℕ) × (t : Bytes) × (s ≡ b ∷ t))
head_cases [] = inl refl
head_cases (b ∷ t) = inr (b, t, refl)

module _ (py : Python) (x : External) (buf : Bytes) (d : Bool) where
  inner_step :
      (f depth at b : ℕ) (t : Bytes)
      → depth + f ≡ max_parse_depth + 1
      → 0 < f
      → drop at buf ≡ b ∷ t
      → parse_inner py x buf d (suc f) depth at
        ≡ inner_tag py x buf d (parse_inner py x buf d f (suc depth)) at (tag_of b)
  unfolding parse_inner raise_if inner_at
  inner_step f depth at b t h p e =
      let here : get_elem? buf at ≡ some b =
        ap (get_elem? buf) {x = at} {y = at + 0} (omega arith)
        ∙ sym (get_elem?-drop at buf 0)
        ∙ ap (λ s. get_elem? s 0) e in
      rw (le→ltb max_parse_depth depth (omega arith), here) refl

  within_step :
      (fuel at b : ℕ) (t : Bytes)
      → drop at buf ≡ b ∷ t
      → parse_within x (suc fuel) (drop at buf)
        ≡ parse_tag x (parse_within x fuel) (drop at buf) (tag_of b)
  unfolding parse_within
  within_step fuel at b t e =
      ap (parse_within x (suc fuel)) e
      ∙ ap (λ s. parse_tag x (parse_within x fuel) s (tag_of b)) (sym e)

  -- At every offset and depth, with `k` levels left.
  inner-Same :
      (fuel f depth k at : ℕ)
      → depth + k ≡ max_parse_depth
      → k + 2 ≡ f
      → Ensures
          (Unit {0})
          (Same py x buf d k at (parse_inner py x buf d f depth at))
          (parse_within x fuel (drop at buf))
  inner-Same zero f depth k at h g = unfold parse_within in starves tt
  inner-Same (suc fuel) zero depth k at h g = absurd (omega arith)
  inner-Same (suc fuel) (suc f) depth k at h g = elim (head_cases (drop at buf)) [
    | inl e ↦
        unfold parse_within in
        subst
          (λ s.
            Ensures (Unit {0}) (Same py x buf d k at (parse_inner py x buf d (suc f) depth at))
              (parse_within x (suc fuel) s))
          (sym e) fails
    | inr (b, t, e) ↦
        subst
          (λ m.
            Ensures (Unit {0}) (Same py x buf d k at m) (parse_within x (suc fuel) (drop at buf)))
          (sym (inner_step f depth at b t (omega arith) (omega arith) e))
          (subst
            (Ensures (Unit {0}) (
              Same py x buf d k at
                (inner_tag py x buf d (parse_inner py x buf d f (suc depth)) at (tag_of b))))
            (sym (within_step fuel at b t e))
            (tag-Same py x buf d k at (parse_inner py x buf d f (suc depth)) (parse_within x fuel)
              (λ q. elim (Bool-cases (ltb 0 k)) [
                | inl left ↦
                    Ensures-weaken
                      (inner-Same fuel f (suc depth) (k - 1) q (ground arith) (ground arith))
                      (λ s. s) (λ r same c. same c.1)
                | inr out ↦
                    Ensures-of (parse_within x fuel (drop q buf)) (λ r e c. absurd (ground arith))
              ])
              (tag_of b)))
  ]

-- Where parse reads a value from the front of a reply, and the value keeps the limits of the single
-- pass (512 levels of nesting, 16777216 elements, 10000 bytes of a big number) and holds no push
-- message, no attributes and no verbatim string without a text, then parse_to_python comes to exactly
-- what the conversion of that value comes to, an exception that it raises included, and consumes as
-- many bytes as parse does; with `decode_responses` and without.
pub parse_to_python-parse :
    (py : Python) (x : External) (decode : Bool) (buf : Bytes) {v : RespValue} {n : ℕ}
    → parse x buf ≡ ok (v, n)
    → FitsValue max_parse_depth v
    → parse_to_python py x buf decode ≡ (convert py decode v >>= λ o. done (o, n))
unfolding parse parse_to_python parse_fuel
parse_to_python-parse py x decode [] h fits = unfold parse_within in cc
parse_to_python-parse py x decode (b ∷ s) {v} {n} h fits =
    Ensures-ok
      (inner-Same py x (b ∷ s) decode (suc (length (b ∷ s))) 514 0 max_parse_depth 0 refl refl) h
      fits
    ∙ ap (λ (m : ℕ). convert py decode v >>= λ o. done (o, m)) {x = 0 + n} {y = n} (omega arith)
